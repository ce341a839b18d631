-- ===== src/Browser/Examples.antt =====
-- A server of two nodes that refer to each other, and a cached chain of three nodes.
use opc_ua_modules.Base.{
  ℕ, zero, suc, ◌≡◌, ◌≢◌, ◌*◌, ◌+◌, ◌≤◌, refl, true, false, some, List, [], ◌∷◌, nat_eq, map, arith,
  string_eq,
}
use opc_ua_modules.Browser.{
  Cache, CachedReferences, Reference, BrowseResult, Service, good, bad_other, no_references,
  invalidate_recursive, forward_children,
}
use opc_ua_modules.Base.Dict.{lookup, contains}
use opc_ua_modules.Browser.Levels.{LeadsInto}
use opc_ua_modules.Browser.Answers.{IsStatic}
use opc_ua_modules.Browser.Invalidation.{elem, invalidate_recursive_lem}
use opc_ua_modules.Browser.Queries.{references_of}
use opc_ua_modules.Browser.Filtering.{Browsing, BrowseFilter, forward, is_subtype_of}
use opc_ua_modules.Browser.Filtering.Hierarchy.{
  here, later, IsSubtype, IsHierarchy, Decides, is_subtype_of_lem,
}
use opc_ua_modules.Browser.Termination.{Completes, uncached, browse_multiple-Completes}

abbrev to : ℕ → Reference ℕ
to n = record {
  reference_type_id = 35;
  is_forward = true;
  node_id = n;
  browse_name = "node";
  node_class = 1;
  type_definition = 61;
}

abbrev result : List (Reference ℕ) → BrowseResult ℕ
result rs = record { status_code = good; references = rs; has_continuation_point = false }

abbrev answer : ℕ → BrowseResult ℕ
answer zero = result (to 1 ∷ [])
answer (suc zero) = result (to 0 ∷ [])
answer (suc (suc n)) = result []

abbrev service : Service ℕ
service = record { browse = λ ids. some (map answer ids); browse_next = λ rs. [] }

abbrev nodes : List ℕ
nodes = 0 ∷ 1 ∷ []

answer-good : (n : ℕ) → (answer n).status_code ≢ bad_other
answer-good zero h = absurd (cc)
answer-good (suc zero) h = absurd (cc)
answer-good (suc (suc n)) h = absurd (cc)

answer-whole : (n : ℕ) → (answer n).has_continuation_point ≡ false
answer-whole zero = refl
answer-whole (suc zero) = refl
answer-whole (suc (suc n)) = refl

answer-leads : (n : ℕ) → LeadsInto (λ u. elem u nodes) (answer n).references
answer-leads zero = (λ h. refl, tt)
answer-leads (suc zero) = (λ h. refl, tt)
answer-leads (suc (suc n)) = tt

service-IsStatic : IsStatic service (λ u. elem u nodes) answer
service-IsStatic = record {
  answers = λ ids. refl;
  accessible = answer-good;
  whole = answer-whole;
  leads = answer-leads;
}

enough : 2 * uncached nodes [] + 2 ≤ 6
unfolding uncached contains
enough = omega arith

browse_multiple-Completes_example : Completes 6 service 1 (0 ∷ []) []
browse_multiple-Completes_example =
    browse_multiple-Completes service nodes answer service-IsStatic 1 6 (0 ∷ []) [] enough

abbrev refs_to : ℕ → CachedReferences ℕ
refs_to n = record { by_node_id = (n, to n) ∷ []; by_browse_name = ("node", to n) ∷ [] }

-- Node 0 refers to node 1, which refers to node 2.
abbrev chain : Cache ℕ
chain = (0, refs_to 1) ∷ (1, refs_to 2) ∷ (2, no_references) ∷ []

lookup-chain : lookup 0 chain ≡ some (refs_to 1)
unfolding lookup
lookup-chain = refl

invalidate_recursive_lem_example : lookup 2 (invalidate_recursive 0 chain) ≡ some no_references
unfolding lookup forward_children
invalidate_recursive_lem_example = invalidate_recursive_lem 0 2 chain (refs_to 1) lookup-chain

abbrev browsing : Browsing ℕ
browsing = record { levels = 6; service = service; max_nodes = 1 }

abbrev height : ℕ → ℕ
height zero = 2
height (suc zero) = 1
height (suc (suc n)) = 0

chain-IsHierarchy : IsHierarchy 0 35 browsing chain height
unfolding references_of contains lookup
chain-IsHierarchy zero _ h (here y) = (refl, omega arith)
chain-IsHierarchy zero _ h (later m) = elim m [ ]
chain-IsHierarchy (suc zero) _ h (here y) = (refl, omega arith)
chain-IsHierarchy (suc zero) _ h (later m) = elim m [ ]
chain-IsHierarchy (suc (suc zero)) id h m = elim m [ ]
chain-IsHierarchy (suc (suc (suc n))) id h m = absurd (ground arith)

chain-cached : contains 0 chain ≡ true
unfolding contains
chain-cached = refl

-- Node 2 is a subtype of node 0.
is_subtype_of_lem_example :
    Decides 0 35 browsing
      (is_subtype_of 0 35 browsing 3 2 0 chain)
      chain
      (IsSubtype 0 35 browsing chain 2 0)
is_subtype_of_lem_example =
    is_subtype_of_lem 0 35 browsing 3 2 0 chain height chain-IsHierarchy chain-cached refl
      (omega arith)

-- The forward references of the class 1.
abbrev forward_filter : BrowseFilter ℕ
forward_filter = record {
  reference_type_id = 35;
  type_definition = 0;
  direction = forward;
  node_class = 1;
}
