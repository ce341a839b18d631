-- ===== src/Converters/DataRules/RoundTrip.antt =====
-- Rules of data, written and read.
use opc_ua_modules.Base.{
  ◌≡◌, refl, sym, arith, ap, subst, Option, none, some, true, false, Bool-cases, inl, inr, List, [],
  map, String, string_eq,
}
use opc_ua_modules.Base.Int.{pos}
use opc_ua_modules.Base.Dict.{contains}
use opc_ua_modules.Converters.Variants.{
  AllTwo-map, Variant, ◌>>=◌, >>=-eq-some, some-eq, traverse, AllTwo, All-Unit, IsReadAs,
  structure_of, to_array_variant, to_daq_list, to_daq_list-to_array_variant,
}
use opc_ua_modules.Converters.Numbers.{Number, int_number, number_to_daq_object-number_to_variant}
use opc_ua_modules.Converters.Dictionaries.{AreDistinct, AllNew-nil}
use opc_ua_modules.Converters.Parameters.{
  Objects, number_at, read_parameters, write_parameter, survivors, read_parameters-write,
}
use opc_ua_modules.Converters.DataRules.{
  DataRule, DataRuleType, linear_rule, constant_rule, explicit_rule, DataRuleKind, data_rule_kind,
  linear_description, constant_description, base_description, explicit_domain_description,
  custom_description, other_description, other_rule, DataRuleStructure, DataRuleFactories,
  data_rule_to_daq_object, data_rule_to_tms_type, data_rule_converter,
}

module _ {ℓ} {F X O : Type ℓ} (d : Objects F X O) (f : DataRuleFactories F O) where
  -- What a rule is read as, that was written as a structure: the rule that the factory makes from the
  -- parameters that the structure has.
  pub data Converted (r : DataRule O) : DataRuleKind → DataRule O → Type ℓ where
    as_linear :
        {delta start : Number F}
        → number_at d "delta" r.parameters ≡ some delta
        → number_at d "start" r.parameters ≡ some start
        → Converted r linear_description (f.linear_data_rule delta start)
    as_constant : Converted r constant_description f.constant_data_rule
    as_explicit : Converted r base_description f.explicit_data_rule
    as_explicit_domain :
        {least most : Number F}
        → number_at d "minExpectedDelta" r.parameters ≡ some least
        → number_at d "maxExpectedDelta" r.parameters ≡ some most
        → Converted r explicit_domain_description (f.explicit_domain_data_rule least most)
    as_custom :
        {params : List (String × O)}
        → (AreDistinct r.parameters → params ≡ survivors d r.parameters)
        → Converted r custom_description record { rule_type = other_rule; parameters = params }

  -- The structure that a rule is written as where no target is given, by its type; an explicit rule
  -- has one of its own if it has both bounds.
  pub data Chosen (r : DataRule O) : DataRuleKind → Type ℓ where
    linear_chosen : r.rule_type ≡ linear_rule → Chosen r linear_description
    constant_chosen : r.rule_type ≡ constant_rule → Chosen r constant_description
    bounded_chosen :
        r.rule_type ≡ explicit_rule
        → contains "minExpectedDelta" r.parameters ≡ true
        → contains "maxExpectedDelta" r.parameters ≡ true
        → Chosen r explicit_domain_description
    without_min_chosen :
        r.rule_type ≡ explicit_rule
        → contains "minExpectedDelta" r.parameters ≡ false
        → Chosen r base_description
    without_max_chosen :
        r.rule_type ≡ explicit_rule
        → contains "maxExpectedDelta" r.parameters ≡ false
        → Chosen r base_description
    custom_chosen : r.rule_type ≡ other_rule → Chosen r custom_description

  -- The structure is the target, or the one that is chosen where there is no target.
  pub data IsWrittenAs : Option DataRuleKind → DataRule O → DataRuleKind → Type ℓ where
    by_type : {r : DataRule O} {k : DataRuleKind} → Chosen r k → IsWrittenAs none r k
    by_target : {r : DataRule O} {k : DataRuleKind} → IsWrittenAs (some k) r k

  kind_of_type :
      (r : DataRule O) (k : DataRuleKind)
      → data_rule_kind d f r ≡ k
      → Chosen r k
      → Chosen r (data_rule_kind d f r)
  kind_of_type r k h c = subst (Chosen r) (sym h) c

  explicit-Chosen : (r : DataRule O) → r.rule_type ≡ explicit_rule → Chosen r (data_rule_kind d f r)
  unfolding data_rule_kind
  explicit-Chosen r h = elim (Bool-cases (contains "minExpectedDelta" r.parameters)) [
    | inr absent ↦ kind_of_type r base_description (ground arith) (without_min_chosen h absent)
    | inl lower ↦ elim (Bool-cases (contains "maxExpectedDelta" r.parameters)) [
      | inr absent ↦ kind_of_type r base_description (ground arith) (without_max_chosen h absent)
      | inl upper ↦
          kind_of_type r explicit_domain_description (ground arith) (bounded_chosen h lower upper)
    ]
  ]

  pub data_rule_kind-Chosen : (r : DataRule O) → Chosen r (data_rule_kind d f r)
  unfolding data_rule_kind
  data_rule_kind-Chosen r = go r.rule_type refl
    where
      go : (t : DataRuleType) → r.rule_type ≡ t → Chosen r (data_rule_kind d f r)
      go linear_rule h = kind_of_type r linear_description (ground arith) (linear_chosen h)
      go constant_rule h = kind_of_type r constant_description (ground arith) (constant_chosen h)
      go explicit_rule h = explicit-Chosen r h
      go other_rule h = kind_of_type r custom_description (ground arith) (custom_chosen h)

  structure_of-IsWrittenAs :
      (target : Option DataRuleKind) (r : DataRule O)
      → IsWrittenAs target r (structure_of (data_rule_converter d f) target r)
  structure_of-IsWrittenAs none r = by_type (data_rule_kind-Chosen r)
  structure_of-IsWrittenAs (some k) r = by_target

  -- The rule is written as its structure, and read as that structure is.
  abbrev pub ReadBack : Option DataRuleKind → DataRule O → DataRule O → Type ℓ
  ReadBack target r r' = (k : DataRuleKind) × IsWrittenAs target r k × Converted r k r'

  pub law :
      (k : DataRuleKind)
      → IsReadAs (data_rule_converter d f) (λ r. Unit) (λ r r'. Converted r k r') k
  unfolding data_rule_to_daq_object data_rule_to_tms_type
  law linear_description r s u h =
      let (delta, has_delta, h1) = >>=-eq-some (number_at d "delta" r.parameters) _ h in
      let (start, has_start, h2) = >>=-eq-some (number_at d "start" r.parameters) _ h1 in
      (
        f.linear_data_rule delta start,
        subst
            (λ x.
              data_rule_to_daq_object d f linear_description x
              ≡ some (f.linear_data_rule delta start))
            (some-eq h2)
            (rw
              (
                number_to_daq_object-number_to_variant X delta,
                number_to_daq_object-number_to_variant X start,
              )
              refl),
        as_linear has_delta has_start,
      )
  law constant_description r s u h = (
    f.constant_data_rule,
    subst (λ x. data_rule_to_daq_object d f constant_description x ≡ some f.constant_data_rule)
        (some-eq h)
        (ap (λ n. n >>= λ value. some f.constant_data_rule)
          (number_to_daq_object-number_to_variant {F = F} X (int_number (pos 0)))),
    as_constant,
  )
  law base_description r s u h = (
    f.explicit_data_rule,
    subst (λ x. data_rule_to_daq_object d f base_description x ≡ some f.explicit_data_rule)
        (some-eq h) refl,
    as_explicit,
  )
  law explicit_domain_description r s u h =
      let (least, has_least, h1) = >>=-eq-some (number_at d "minExpectedDelta" r.parameters) _ h in
      let (most, has_most, h2) = >>=-eq-some (number_at d "maxExpectedDelta" r.parameters) _ h1 in
      (
        f.explicit_domain_data_rule least most,
        subst
            (λ x.
              data_rule_to_daq_object d f explicit_domain_description x
              ≡ some (f.explicit_domain_data_rule least most))
            (some-eq h2)
            (rw
              (
                number_to_daq_object-number_to_variant X least,
                number_to_daq_object-number_to_variant X most,
              )
              refl),
        as_explicit_domain has_least has_most,
      )
  law custom_description r s u h =
      let (ps, made, h1) = >>=-eq-some (traverse (write_parameter d) r.parameters) _ h in
      let read : DataRule O = record {
        rule_type = other_rule;
        parameters = read_parameters d ps [];
      } in
      (
        read,
        subst (λ x. data_rule_to_daq_object d f custom_description x ≡ some read) (some-eq h1) refl,
        as_custom (λ distinct.
            read_parameters-write d r.parameters [] made distinct (AllNew-nil r.parameters)),
      )
  law other_description r s u h = absurd (cc)

  -- Every list of rules of data that is written without an exception, as extension objects or as an
  -- array of a structure, is read as a list of the same length without a missing rule. Each rule is
  -- written as the target's structure, or as the one of its type, and read as the rule that the
  -- factory makes for that structure from the same parameters: a constant
  -- rule loses its value, an explicit rule without both bounds its parameters, and a custom rule the
  -- parameters whose value cannot be converted back.
  pub data_rules-RoundTrip :
      (target : Option DataRuleKind) (rs : List (DataRule O)) {v : Variant (DataRuleStructure F X)}
      → to_array_variant (data_rule_converter d f) target rs ≡ some v
      → (rs' : List (DataRule O)) × (to_daq_list (data_rule_converter d f) v ≡ some (map some rs'))
        × AllTwo (ReadBack target) rs rs'
  data_rules-RoundTrip target rs h =
      let (rs', is_read, related) =
        to_daq_list-to_array_variant (data_rule_converter d f) (λ r. Unit)
          (λ k r r'. Converted r k r') law target rs (All-Unit rs) h in
      (
        rs',
        is_read,
        AllTwo-map
            (λ r r' c. (
              structure_of (data_rule_converter d f) target r,
              structure_of-IsWrittenAs target r,
              c,
            ))
            related,
      )
