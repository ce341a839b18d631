-- ===== src/Browser/Queries.antt =====
-- Reading the cache by browse name: `hasReference` and `getChildNodeId`.
use opc_ua_modules.Base.{
  ◌≡◌, ap, ◌∙◌, Bool, true, Option, none, some, String, HasEq, ==_refl, string_eq, if◌then◌else◌,
}
use opc_ua_modules.Base.Dict.{lookup, put, contains, lookup-put, contains-put}
use opc_ua_modules.Browser.{Reference, CachedReferences, Cache, no_references}

module _ {ℓ} {N : Type ℓ} ⦃e : HasEq N⦄ where
  -- `references[nodeId]`, which makes an entry where there is none.
  unfoldable pub references_of : N → Cache N → CachedReferences N
  unfolding lookup
  references_of id cache = elim (lookup id cache) [ none ↦ no_references | some refs ↦ refs ]

module _ {ℓ} {N : Type ℓ} ⦃e : HasEq N⦄ (empty : Reference N) where
  -- `hasReference` after the browse: the answer and the cache.
  pub has_reference : N → String → Cache N → Bool × Cache N
  unfolding references_of contains put
  has_reference id name cache =
      let refs = references_of id cache in (contains name refs.by_browse_name, put id refs cache)

  -- `byBrowseName[browseName]`: an empty description is stored under a name that is missing.
  pub reference_at : String → CachedReferences N → Reference N
  unfolding lookup
  reference_at name refs = elim (lookup name refs.by_browse_name) [ none ↦ empty | some r ↦ r ]

  -- `getChildNodeId` after the browse.
  pub get_child_node_id : N → String → Cache N → N × Cache N
  unfolding references_of reference_at put
  get_child_node_id id name cache =
      let refs = references_of id cache in
      let r = reference_at name refs in
      (r.node_id, put id (record refs { by_browse_name = put name r refs.by_browse_name }) cache)

  references_of-put :
      (id : N) (refs : CachedReferences N) (cache : Cache N)
      → references_of id (put id refs cache) ≡ refs
  unfolding references_of
  references_of-put id refs cache =
      ap (λ (o : Option (CachedReferences N)). elim o [ none ↦ no_references | some r ↦ r ])
        (lookup-put id id refs cache
          ∙ ap (λ t. if t then some refs else lookup id cache) (==_refl id))

  -- After `getChildNodeId` the name is one that `hasReference` finds, whether or not the node has a
  -- reference of that name: asking for a child that is missing answers with the null id and leaves
  -- an empty description behind.
  pub has_reference-get_child_node_id :
      (id : N) (name : String) (cache : Cache N)
      → (has_reference id name (get_child_node_id id name cache).1).0 ≡ true
  unfolding has_reference get_child_node_id references_of
  has_reference-get_child_node_id id name cache =
      let refs = references_of id cache in
      let r = reference_at name refs in
      let next = record refs { by_browse_name = put name r refs.by_browse_name } in
      ap (λ (x : CachedReferences N). contains name x.by_browse_name)
        (references_of-put id next cache)
      ∙ contains-put name name r refs.by_browse_name
      ∙ ap (λ t. if t then true else contains name refs.by_browse_name) (==_refl name)
