-- ===== src/Browser/Filtering.antt =====
-- The searches on the cache that browse as they go: `isSubtypeOf`, `browseFiltered`, and
-- `browseOne`, which catches the exceptions of the service.

pub mod Hierarchy
pub mod Kept
use opc_ua_modules.Base.{
  ℕ, zero, suc, Bool, true, false, not, ◌&&◌, ◌||◌, Option, none, some, List, [], ◌∷◌, String,
  HasEq, ◌==◌, string_eq, nat_eq, if◌then◌else◌,
}
use opc_ua_modules.Base.Dict.{insert}
use opc_ua_modules.Browser.{
  Reference, CachedReferences, Cache, Outcome, done, thrown, undefined, out_of_fuel, Service,
  BrowseResult, StatusCode, good, bad_user_access_denied, bad_node_id_unknown, bad_other,
  no_references, mark_as_cached, process_browse_results, browse, browse_multiple,
}
use opc_ua_modules.Browser.Queries.{references_of}

-- How a search ends, with the cache: by an answer, an exception, without a defined behaviour, or not
-- within the fuel.
pub data Search {ℓ κ} (N : Type ℓ) (A : Type κ) : Type (ℓ ⊔ κ) where
  found : A → Cache N → Search N A
  failed : Cache N → Search N A
  crashed unfinished : Search N A

-- `UA_BrowseDirection`
pub data BrowseDirection : Type 0 where
  forward inverse both : BrowseDirection

-- A node class 0 is `UA_NODECLASS_UNSPECIFIED`.
pub record BrowseFilter {ℓ} (N : Type ℓ) : Type ℓ where
  pub reference_type_id : N
  pub type_definition : N
  pub direction : BrowseDirection
  pub node_class : ℕ

-- The bound on the levels of `browseMultiple`, the service and the largest batch.
pub record Browsing {ℓ} (N : Type ℓ) : Type ℓ where
  pub levels : ℕ
  pub service : Service N
  pub max_nodes : ℕ

module _ {ℓ} {N : Type ℓ} ⦃e : HasEq N⦄ (null has_subtype : N) (b : Browsing N) where
  unfoldable pub browsed : N → Cache N → Outcome N
  unfolding browse
  browsed id cache = browse b.levels b.service b.max_nodes id cache

  -- The loop of `isSubtypeOf` over the references of a type, given the search below one of them.
  unfoldable pub below_any :
      (N → Cache N → Search N Bool) → List (N × Reference N) → Cache N → Search N Bool
  below_any below [] cache = found false cache
  below_any below ((id, r) ∷ rs) cache = elim (r.reference_type_id == has_subtype) [
    | false ↦ below_any below rs cache
    | true ↦ elim (below id cache) [
      | failed c ↦ failed c
      | crashed ↦ crashed
      | unfinished ↦ unfinished
      | found t c ↦ elim t [ true ↦ found true c | false ↦ below_any below rs c ]
    ]
  ]

  -- The fuel bounds the depth of the recursion.
  unfoldable pub is_subtype_of : ℕ → N → N → Cache N → Search N Bool
  unfolding browsed below_any references_of
  is_subtype_of zero type base cache = unfinished
  is_subtype_of (suc depth) type base cache = elim (type == base) [
    | true ↦ found true cache
    | false ↦ elim (type == null) [
      | true ↦ found false cache
      | false ↦ elim (browsed base cache) [
        | thrown c ↦ failed c
        | undefined ↦ crashed
        | out_of_fuel ↦ unfinished
        | done c next ↦ below_any (is_subtype_of depth type) (references_of base c).by_node_id c
      ]
    ]
  ]

  -- `!filter.typeDefinition.isNull() && !isSubtypeOf(...)`, negated.
  unfoldable pub fits_type : ℕ → BrowseFilter N → Reference N → Cache N → Search N Bool
  unfolding is_subtype_of
  fits_type depth filter r cache = elim (filter.type_definition == null) [
    | true ↦ found true cache
    | false ↦ is_subtype_of depth r.type_definition filter.type_definition cache
  ]

  unfoldable pub fits_reference_type : BrowseFilter N → Reference N → Bool
  fits_reference_type filter r =
      filter.reference_type_id == null || filter.reference_type_id == r.reference_type_id

  unfoldable pub fits_direction : BrowseDirection → Reference N → Bool
  fits_direction forward r = r.is_forward
  fits_direction inverse r = not r.is_forward
  fits_direction both r = true

  unfoldable pub fits_class : BrowseFilter N → Reference N → Bool
  fits_class filter r = filter.node_class == 0 || filter.node_class == r.node_class

  unfoldable pub insert_reference : String → Reference N → CachedReferences N → CachedReferences N
  unfolding insert
  insert_reference name r refs = record {
    by_node_id = insert r.node_id r refs.by_node_id;
    by_browse_name = insert name r refs.by_browse_name;
  }

  pub filter_references :
      ℕ
      → BrowseFilter N
      → List (String × Reference N)
      → CachedReferences N
      → Cache N
      → Search N (CachedReferences N)
  unfolding fits_type fits_reference_type fits_direction fits_class insert_reference
  filter_references depth filter [] filtered cache = found filtered cache
  filter_references depth filter ((name, r) ∷ rs) filtered cache =
      elim (fits_reference_type filter r) [
        | false ↦ filter_references depth filter rs filtered cache
        | true ↦ elim (fits_type depth filter r cache) [
          | failed c ↦ failed c
          | crashed ↦ crashed
          | unfinished ↦ unfinished
          | found t c ↦ elim (t && fits_direction filter.direction r && fits_class filter r) [
            | false ↦ filter_references depth filter rs filtered c
            | true ↦ filter_references depth filter rs (insert_reference name r filtered) c
          ]
        ]
      ]

  pub browse_filtered : ℕ → N → BrowseFilter N → Cache N → Search N (CachedReferences N)
  unfolding browsed filter_references references_of
  browse_filtered depth id filter cache = elim (browsed id cache) [
    | thrown c ↦ failed c
    | undefined ↦ crashed
    | out_of_fuel ↦ unfinished
    | done c next ↦
        filter_references depth filter (references_of id c).by_browse_name no_references c
  ]

  -- The status of `results[0]`; the service answers one node with one result.
  unfoldable pub first_is_good : List (BrowseResult N) → Bool
  first_is_good [] = false
  first_is_good (r ∷ rs) = elim r.status_code [
    | good ↦ true
    | bad_user_access_denied ↦ false
    | bad_node_id_unknown ↦ false
    | bad_other ↦ false
  ]

  -- What `browseOne` does after the exceptions of its own request are caught.
  unfoldable pub browse_discovered : Outcome N → Search N Bool
  unfolding browse_multiple
  browse_discovered (thrown c) = found false c
  browse_discovered undefined = crashed
  browse_discovered out_of_fuel = unfinished
  browse_discovered (done c []) = found true c
  browse_discovered (done c (n ∷ ns)) =
      elim (browse_multiple b.levels b.service b.max_nodes (n ∷ ns) c) [
        | thrown c' ↦ failed c'
        | undefined ↦ crashed
        | out_of_fuel ↦ unfinished
        | done c' next ↦ found true c'
      ]

  pub browse_one : N → Cache N → Search N Bool
  unfolding first_is_good mark_as_cached process_browse_results browse_discovered
  browse_one id cache = elim (b.service.browse (id ∷ [])) [
    | none ↦ found false cache
    | some results ↦ elim (first_is_good results) [
      | false ↦ found false cache
      | true ↦
          browse_discovered (process_browse_results (id ∷ []) results (mark_as_cached id cache) [])
    ]
  ]
