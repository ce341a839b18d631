-- ===== src/Browser/Filtering/Kept.antt =====
-- What `browseFiltered` keeps.
use opc_ua_modules.Base.{
  ℕ, ◌≡◌, Bool, true, ◌&&◌, not, ◌==◌, nat_eq, if◌then◌else◌, List, [], ◌∷◌, String, HasEq,
  string_eq,
}
use opc_ua_modules.Browser.{Reference, CachedReferences, Cache}
use opc_ua_modules.Browser.Filtering.{
  found, Browsing, BrowseFilter, BrowseDirection, forward, inverse, both, fits_type,
  insert_reference,
}

module _ {ℓ} {N : Type ℓ} ⦃e : HasEq N⦄ (null has_subtype : N) (b : Browsing N) where
  abbrev pub insert_all : List (String × Reference N) → CachedReferences N → CachedReferences N
  insert_all [] refs = refs
  insert_all ((name, r) ∷ rs) refs = insert_all rs (insert_reference null has_subtype b name r refs)

  abbrev pub goes : BrowseDirection → Bool → Bool
  goes forward is_forward = is_forward
  goes inverse is_forward = not is_forward
  goes both is_forward = true

  -- A reference fits the filter, given whether its type definition is a subtype: where the filter
  -- names a reference type or a class, it is that one, and the reference goes in the direction.
  abbrev pub fits : BrowseFilter N → (Reference N → Bool) → String × Reference N → Bool
  fits filter fitting (name, r) =
      (if filter.reference_type_id == null
        then true
        else filter.reference_type_id == r.reference_type_id)
      && (fitting r
          && goes filter.direction r.is_forward
          && (if filter.node_class == 0 then true else filter.node_class == r.node_class))

  module _ (depth : ℕ) (filter : BrowseFilter N) (cache : Cache N)
      (fitting : Reference N → Bool) where
    -- The test of the type definition answers from the cache.
    abbrev pub IsAnswered : Type ℓ
    IsAnswered =
        (r : Reference N)
        → fits_type null has_subtype b depth filter r cache ≡ found (fitting r) cache
