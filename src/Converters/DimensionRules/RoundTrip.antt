-- ===== src/Converters/DimensionRules/RoundTrip.antt =====
-- Rules of dimensions, written and read.
use opc_ua_modules.Base.{
  ℕ, ◌^◌, ◌%◌, ◌≡◌, ◌≢◌, refl, ap, subst, ◌∙◌, Option, some, List, [], ◌∷◌, map, All, String,
  string_eq,
}
use opc_ua_modules.Base.Int.{ℤ}
use opc_ua_modules.Converters.Variants.{
  Variant, ◌>>=◌, >>=-eq-some, some-eq, traverse, AllTwo, IsReadAs, structure_of, to_array_variant,
  to_daq_list, to_daq_list-to_array_variant,
}
use opc_ua_modules.Converters.Numbers.{
  Number, number_to_variant, number_to_daq_object, number_to_daq_object-number_to_variant,
}
use opc_ua_modules.Converters.Dictionaries.{AreDistinct, AllNew-nil}
use opc_ua_modules.Converters.Parameters.{
  Objects, number_at, read_parameters, write_parameter, survivors, read_parameters-write,
}
use opc_ua_modules.Converters.DimensionRules.{
  DimensionRule, DimensionRuleKind, linear_structure, log_structure, list_structure,
  custom_structure, other_structure, other_dimension, DimensionRuleStructure,
  DimensionRuleFactories, size_at, base_at, list_at, dimension_rule_to_daq_object,
  dimension_rule_to_tms_type, dimension_rule_converter,
}

traverse-map {ℓ} :
    {F : Type ℓ} (X : Type ℓ) (l : List (Number F))
    → traverse (number_to_daq_object {X = X}) (map number_to_variant l) ≡ some l
traverse-map X [] = refl
traverse-map X (n ∷ l) =
    rw (number_to_daq_object-number_to_variant X n) (rw (traverse-map X l) refl)

module _ {ℓ} {F X O : Type ℓ} (d : Objects F X O) (f : DimensionRuleFactories F O) where
  -- What a rule is read as, that was written as a structure.
  pub data Converted (r : DimensionRule O) : DimensionRuleKind → DimensionRule O → Type ℓ where
    as_linear :
        {delta start : Number F} {size : ℕ}
        → number_at d "delta" r.parameters ≡ some delta
        → number_at d "start" r.parameters ≡ some start
        → size_at d f r.parameters ≡ some size
        → Converted r linear_structure (f.linear_dimension_rule delta start (size % 2 ^ 32))
    as_log :
        {delta start : Number F} {base : ℤ} {size : ℕ}
        → number_at d "delta" r.parameters ≡ some delta
        → number_at d "start" r.parameters ≡ some start
        → base_at d f r.parameters ≡ some base
        → size_at d f r.parameters ≡ some size
        → Converted r log_structure
            (f.logarithmic_dimension_rule delta start (f.log_base base) (f.log_size size))
    as_list :
        {list : List (Number F)}
        → list_at d f r.parameters ≡ some list
        → Converted r list_structure (f.list_dimension_rule list)
    as_custom :
        {params : List (String × O)}
        → (AreDistinct r.parameters → params ≡ survivors d r.parameters)
        → Converted r custom_structure record { rule_type = other_dimension; parameters = params }

  -- A rule without an empty list: such a list is written, and refused when it is read.
  abbrev pub IsReadable : DimensionRule O → Type ℓ
  IsReadable r = list_at d f r.parameters ≢ some []

  list_read :
      (list : List (Number F))
      → list ≢ []
      → dimension_rule_to_daq_object d f list_structure
          record { type_name = "List"; elements = map number_to_variant list }
        ≡ some (f.list_dimension_rule list)
  unfolding dimension_rule_to_daq_object
  list_read [] filled = absurd (filled refl)
  list_read (n ∷ list) filled =
      ap (λ l. l >>= λ l. some (f.list_dimension_rule l)) (traverse-map X (n ∷ list))

  pub law :
      (k : DimensionRuleKind)
      → IsReadAs (dimension_rule_converter d f) IsReadable (λ r r'. Converted r k r') k
  unfolding dimension_rule_to_daq_object dimension_rule_to_tms_type
  law linear_structure r s p h =
      let (size, has_size, h1) = >>=-eq-some (size_at d f r.parameters) _ h in
      let (delta, has_delta, h2) = >>=-eq-some (number_at d "delta" r.parameters) _ h1 in
      let (start, has_start, h3) = >>=-eq-some (number_at d "start" r.parameters) _ h2 in
      let read = f.linear_dimension_rule delta start (size % 2 ^ 32) in
      (
        read,
        subst (λ x. dimension_rule_to_daq_object d f linear_structure x ≡ some read) (some-eq h3)
            (rw
              (
                number_to_daq_object-number_to_variant X delta,
                number_to_daq_object-number_to_variant X start,
              )
              refl),
        as_linear has_delta has_start has_size,
      )
  law log_structure r s p h =
      let (size, has_size, h1) = >>=-eq-some (size_at d f r.parameters) _ h in
      let (delta, has_delta, h2) = >>=-eq-some (number_at d "delta" r.parameters) _ h1 in
      let (start, has_start, h3) = >>=-eq-some (number_at d "start" r.parameters) _ h2 in
      let (base, has_base, h4) = >>=-eq-some (base_at d f r.parameters) _ h3 in
      let read = f.logarithmic_dimension_rule delta start (f.log_base base) (f.log_size size) in
      (
        read,
        subst (λ x. dimension_rule_to_daq_object d f log_structure x ≡ some read) (some-eq h4)
            (rw
              (
                number_to_daq_object-number_to_variant X delta,
                number_to_daq_object-number_to_variant X start,
              )
              refl),
        as_log has_delta has_start has_base has_size,
      )
  law list_structure r s p h =
      let (list, has_list, h1) = >>=-eq-some (list_at d f r.parameters) _ h in
      let filled : list ≢ [] = λ e. p (has_list ∙ ap some e) in
      (
        f.list_dimension_rule list,
        subst
            (λ x.
              dimension_rule_to_daq_object d f list_structure x ≡ some (f.list_dimension_rule list))
            (some-eq h1) (list_read list filled),
        as_list has_list,
      )
  law custom_structure r s p h =
      let (ps, made, h1) = >>=-eq-some (traverse (write_parameter d) r.parameters) _ h in
      let read : DimensionRule O = record {
        rule_type = other_dimension;
        parameters = read_parameters d ps [];
      } in
      (
        read,
        subst (λ x. dimension_rule_to_daq_object d f custom_structure x ≡ some read) (some-eq h1)
            refl,
        as_custom (λ distinct.
            read_parameters-write d r.parameters [] made distinct (AllNew-nil r.parameters)),
      )
  law other_structure r s p h = absurd (cc)

  -- Every list of rules of dimensions that is written without an exception is read as a list of the
  -- same length without a missing rule, if none of the rules has an empty list. Each rule is read as
  -- the one that the factory makes for its structure from the same parameters; the size of a linear
  -- rule is the one modulo 2 ^ 32.
  pub dimension_rules-RoundTrip :
      (target : Option DimensionRuleKind) (rs : List (DimensionRule O))
      {v : Variant (DimensionRuleStructure F X)}
      → All IsReadable rs
      → to_array_variant (dimension_rule_converter d f) target rs ≡ some v
      → (rs' : List (DimensionRule O)) × (to_daq_list (dimension_rule_converter d f) v
          ≡ some (map some rs'))
        × AllTwo
            (λ r r'. Converted r (structure_of (dimension_rule_converter d f) target r) r')
            rs
            rs'
  dimension_rules-RoundTrip target rs a h =
      to_daq_list-to_array_variant (dimension_rule_converter d f) IsReadable
        (λ k r r'. Converted r k r') law target rs a h
