-- ===== src/Browser.antt =====
-- The cache of browsed references: cached_reference_browser.h and cached_reference_browser.cpp of
-- shared/libraries/opcua/opcuaclient. Node ids are those of the OPC UA stack, known by their
-- equality test; the browse service is an argument.
pub mod Invalidation
pub mod Levels
pub mod Answers
pub mod Termination
pub mod Queries
pub mod Filtering
mod Examples
use opc_ua_modules.Base.{
  ℕ, zero, suc, Bool, true, false, not, ◌&&◌, Option, none, some, List, [], ◌∷◌, ◌++◌, String,
  HasEq, ◌==◌, string_eq, nat_eq, if◌then◌else◌, keep,
}
use opc_ua_modules.Base.Dict.{lookup, put, erase, contains, insert}
use opc_ua_modules.Batches.{batches}

-- `UA_ReferenceDescription`
pub record Reference {ℓ} (N : Type ℓ) : Type ℓ where
  pub reference_type_id : N
  pub is_forward : Bool
  pub node_id : N
  pub browse_name : String
  pub node_class : ℕ
  pub type_definition : N

pub record CachedReferences {ℓ} (N : Type ℓ) : Type ℓ where
  pub by_node_id : List (N × Reference N)
  pub by_browse_name : List (String × Reference N)

abbrev pub Cache {ℓ} : Type ℓ → Type ℓ
Cache N = List (N × CachedReferences N)

-- The status codes that the code tells apart.
pub data StatusCode : Type 0 where
  good bad_user_access_denied bad_node_id_unknown bad_other : StatusCode

-- `UA_BrowseResult`, with whether its continuation point has a length above 0.
pub record BrowseResult {ℓ} (N : Type ℓ) : Type ℓ where
  pub status_code : StatusCode
  pub references : List (Reference N)
  pub has_continuation_point : Bool

-- The browse service and the browse-next service: none is a bad service result.
pub record Service {ℓ} (N : Type ℓ) : Type ℓ where
  pub browse : List N → Option (List (BrowseResult N))
  pub browse_next : List (BrowseResult N) → List (BrowseResult N)

-- How a run ends, with the cache and the nodes to browse next: by return, by an exception, without a
-- defined behaviour of the program, or not within the fuel.
pub data Outcome {ℓ} (N : Type ℓ) : Type ℓ where
  done : Cache N → List N → Outcome N
  thrown : Cache N → Outcome N
  undefined out_of_fuel : Outcome N

infixl 5 ◌>>=◌
abbrev pub ◌>>=◌ {ℓ} : {N : Type ℓ} → Outcome N → (Cache N → List N → Outcome N) → Outcome N
done cache next >>= f = f cache next
thrown cache >>= f = thrown cache
undefined >>= f = undefined
out_of_fuel >>= f = out_of_fuel

module _ {ℓ} {N : Type ℓ} ⦃e : HasEq N⦄ where
  abbrev pub no_references : CachedReferences N
  no_references = record { by_node_id = []; by_browse_name = [] }

  pub is_cached : N → Cache N → Bool
  unfolding contains
  is_cached id cache = contains id cache

  pub mark_as_cached : N → Cache N → Cache N
  unfolding contains put
  mark_as_cached id cache = if contains id cache then cache else put id no_references cache

  pub mark_all : List N → Cache N → Cache N
  unfolding mark_as_cached
  mark_all [] cache = cache
  mark_all (id ∷ ids) cache = mark_all ids (mark_as_cached id cache)

  -- The inner loop of `processBrowseResults` over the references of one result. It changes the
  -- entry of this node only, so the entry is built first and put into the cache at the end.
  unfoldable pub collect : List (Reference N) → CachedReferences N → CachedReferences N
  unfolding insert
  collect [] c = c
  collect (r ∷ rs) c = collect rs (record {
    by_node_id = insert r.node_id r c.by_node_id;
    by_browse_name = insert r.browse_name r c.by_browse_name;
  })

  -- What the same loop adds to `browseNextOut`.
  unfoldable pub discovered : Cache N → List (Reference N) → List N
  unfolding contains
  discovered cache [] = []
  discovered cache (r ∷ rs) =
      let rest = discovered cache rs in
      if r.is_forward && not (contains r.node_id cache) then r.node_id ∷ rest else rest

  process_result : N → BrowseResult N → Cache N → List N → Outcome N
  unfolding collect discovered put
  process_result id r cache next = elim r.status_code [
    | bad_user_access_denied ↦ done cache next
    | bad_node_id_unknown ↦ done cache next
    | bad_other ↦ thrown cache
    | good ↦
        let cache' = put id no_references cache in
        done (put id (collect r.references no_references) cache)
          (next ++ discovered cache' r.references)
  ]

  -- The results are for the requested nodes in order; the code asserts that there are as many.
  pub process_browse_results : List N → List (BrowseResult N) → Cache N → List N → Outcome N
  unfolding process_result
  process_browse_results ids [] cache next = done cache next
  process_browse_results [] (r ∷ rs) cache next = done cache next
  process_browse_results (id ∷ ids) (r ∷ rs) cache next =
      process_result id r cache next >>= process_browse_results ids rs

  pub first_continues : List (BrowseResult N) → Bool
  first_continues [] = false
  first_continues (r ∷ rs) = r.has_continuation_point

  -- The loop on continuation points. Its round hands the continuation point of the first response to
  -- the next request, whose destructor clears and frees it at the end of the round, although it stands
  -- in the middle of the first response: from there on the program has no defined behaviour.
  pub continue_browse : Service N → List N → List (BrowseResult N) → Cache N → List N → Outcome N
  unfolding first_continues
  continue_browse service ids results cache next = elim (first_continues results) [
    | false ↦ done cache next
    | true ↦ process_browse_results ids (service.browse_next results) cache next >>= λ cache' next'.
        undefined
  ]

  pub browse_batch : Service N → List N → Cache N → List N → Outcome N
  unfolding mark_all process_browse_results continue_browse
  browse_batch service ids cache next =
      let marked = mark_all ids cache in
      elim (service.browse ids) [
        | none ↦ thrown marked
        | some results ↦
            process_browse_results ids results marked next >>= continue_browse service ids results
      ]

  pub browse_batches : Service N → List (List N) → Cache N → List N → Outcome N
  unfolding browse_batch
  browse_batches service [] cache next = done cache next
  browse_batches service (ids ∷ rest) cache next =
      browse_batch service ids cache next >>= browse_batches service rest

  -- The fuel bounds the levels of `browseMultiple`.
  pub browse_multiple : ℕ → Service N → ℕ → List N → Cache N → Outcome N
  unfolding browse_batches
  browse_multiple zero service max ids cache = out_of_fuel
  browse_multiple (suc levels) service max ids cache =
      browse_batches service (batches max ids) cache [] >>= λ cache' next. elim next [
        | [] ↦ done cache' []
        | n ∷ ns ↦ browse_multiple levels service max (n ∷ ns) cache'
      ]

  -- `browse`, up to the reference into the cache that it returns.
  pub browse : ℕ → Service N → ℕ → N → Cache N → Outcome N
  unfolding browse_multiple is_cached
  browse levels service max id cache =
      if is_cached id cache
      then done cache []
      else browse_multiple levels service max (id ∷ []) cache

  -- The nodes that the overload `invalidate(refNodeId)` is called on.
  pub forward_children : List (N × Reference N) → List N
  forward_children [] = []
  forward_children ((id, r) ∷ rs) =
      let rest = forward_children rs in if r.is_forward then id ∷ rest else rest

  -- `invalidate(nodeId)`, which is `invalidate(nodeId, false)`.
  pub invalidate : N → Cache N → Cache N
  unfolding contains erase
  invalidate id cache = if contains id cache then erase id cache else cache

  invalidate_each : List N → Cache N → Cache N
  unfolding invalidate
  invalidate_each [] cache = cache
  invalidate_each (id ∷ ids) cache = invalidate_each ids (invalidate id cache)

  -- `invalidateRecursive(nodeId)`, which is `invalidate(nodeId, true)`.
  pub invalidate_recursive : N → Cache N → Cache N
  unfolding lookup erase forward_children invalidate_each
  invalidate_recursive id cache = elim (lookup id cache) [
    | none ↦ cache
    | some refs ↦ invalidate_each (forward_children refs.by_node_id) (erase id cache)
  ]

  -- `getTypeDefinition` on the references of a browsed node, by the id of HasTypeDefinition.
  pub get_type_definition : N → N → List (N × Reference N) → N
  get_type_definition has_type_definition null [] = null
  get_type_definition has_type_definition null ((id, r) ∷ rs) =
      if r.reference_type_id == has_type_definition
      then r.node_id
      else get_type_definition has_type_definition null rs
