-- ===== src/Converters/Dimensions/RoundTrip.antt =====
-- Dimensions, written and read, with their unit and their rule.
use opc_ua_modules.Base.{◌≡◌, refl, sym, subst, Option, none, some, List, map, All, or_else}
use opc_ua_modules.Converters.Variants.{
  Variant, decode, >>=-eq-some, some-eq, AllTwo, IsReadAs, to_daq_list, to_variant,
  to_daq_list-to_array_variant,
}
use opc_ua_modules.Converters.Units.{
  UnitObject, EuInformationWithQuantity, eu_information_with_quantity, unit_to_daq_object,
  unit_to_tms_type, with_short_id,
}
use opc_ua_modules.Converters.Parameters.{Objects}
use opc_ua_modules.Converters.DimensionRules.{
  DimensionRuleType, linear_dimension, logarithmic_dimension, list_dimension, other_dimension,
  linear_structure, log_structure, list_structure, custom_structure, DimensionRule,
  DimensionRuleKind, DimensionRuleStructure, DimensionRuleFactories, dimension_rule_converter,
  dimension_rule_kind, dimension_rule_to_daq_object, dimension_rule_to_tms_type,
}
use opc_ua_modules.Converters.DimensionRules.RoundTrip.{Converted, IsReadable, law}
use opc_ua_modules.Converters.Dimensions.{
  Dimension, DimensionKind, dimension_descriptor, other_descriptor, DimensionStructure,
  convert_if_assigned, dimension_to_daq_object, rule_to_object, dimension_to_tms_type,
  dimension_converter, dimension_to_array_variant,
}

-- Both are missing, or both are there and related.
pub data Both {ℓ} {A : Type ℓ} (R : A → A → Type ℓ) : Option A → Option A → Type ℓ where
  neither : Both R none none
  each : {a b : A} → R a b → Both R (some a) (some b)

abbrev pub OnAssigned {ℓ κ} : {A : Type ℓ} → (A → Type κ) → Option A → Type κ
OnAssigned P none = Unit
OnAssigned P (some a) = P a

pub OnAssigned-Unit {ℓ κ} : {A : Type ℓ} (o : Option A) → OnAssigned {ℓ, κ} (λ a. Unit) o
OnAssigned-Unit none = tt
OnAssigned-Unit (some a) = tt

module _ {ℓ} {A B : Type ℓ} (write : A → Option B) (read : B → Option A) (P : A → Type ℓ)
    (R : A → A → Type ℓ) where
  pub convert_if_assigned-Both :
      ((a : A) (b : B) → P a → write a ≡ some b → (a' : A) × (read b ≡ some a') × R a a')
      → (o : Option A) {w : Option B} → OnAssigned P o
      → convert_if_assigned write o ≡ some w
      → (o' : Option A) × (convert_if_assigned read w ≡ some o') × Both R o o'
  convert_if_assigned-Both law none {w} p h =
      (none, subst (λ t. convert_if_assigned read t ≡ some none) (some-eq h) refl, neither)
  convert_if_assigned-Both law (some a) {w} p h =
      let (b, written, h1) = >>=-eq-some (write a) _ h in
      let (a', is_read, related) = law a b p written in
      (
        some a',
        subst (λ t. convert_if_assigned read t ≡ some (some a')) (some-eq h1) (rw is_read refl),
        each related,
      )

pub unit_law :
    (a : UnitObject) (b : EuInformationWithQuantity)
    → Unit {0}
    → unit_to_tms_type eu_information_with_quantity a ≡ some b
    → (a' : UnitObject) × (unit_to_daq_object eu_information_with_quantity b ≡ some a')
      × (a' ≡ with_short_id a)
unfolding unit_to_tms_type unit_to_daq_object
unit_law a b u h = (
  with_short_id a,
  subst (λ t. unit_to_daq_object eu_information_with_quantity t ≡ some (with_short_id a))
      (some-eq h) refl,
  refl,
)

-- The structure that a rule of a dimension is written as, by its type.
pub data ChosenFor : DimensionRuleType → DimensionRuleKind → Type 0 where
  linear_chosen : ChosenFor linear_dimension linear_structure
  log_chosen : ChosenFor logarithmic_dimension log_structure
  list_chosen : ChosenFor list_dimension list_structure
  custom_chosen : ChosenFor other_dimension custom_structure

module _ {ℓ} {F X O : Type ℓ} (d : Objects F X O) (f : DimensionRuleFactories F O) where
  dimension_rule_kind-ChosenFor :
      (t : DimensionRuleType) (r : DimensionRule O)
      → r.rule_type ≡ t
      → ChosenFor r.rule_type (dimension_rule_kind d f r)
  dimension_rule_kind-ChosenFor linear_dimension r h = rw h linear_chosen
  dimension_rule_kind-ChosenFor logarithmic_dimension r h = rw h log_chosen
  dimension_rule_kind-ChosenFor list_dimension r h = rw h list_chosen
  dimension_rule_kind-ChosenFor other_dimension r h = rw h custom_chosen

  -- The rule that the structure of its type is read as.
  abbrev pub RuleRead : DimensionRule O → DimensionRule O → Type ℓ
  RuleRead r r' = (k : DimensionRuleKind) × ChosenFor r.rule_type k × Converted d f r k r'

  rule_law :
      (r : DimensionRule O) (o : (k : DimensionRuleKind) × DimensionRuleStructure F X k)
      → IsReadable d f r
      → rule_to_object d f r ≡ some o
      → (r' : DimensionRule O) × (dimension_rule_to_daq_object d f o.0 o.1 ≡ some r')
        × RuleRead r r'
  rule_law r o p h =
      let k = dimension_rule_kind d f r in
      let (v, made, h1) = >>=-eq-some (to_variant (dimension_rule_converter d f) none r) _ h in
      let (s, written, h2) = >>=-eq-some (dimension_rule_to_tms_type d f k r) _ made in
      let (r', is_read, related) = law d f k r s p written in
      let content : (k, s) ≡ o = some-eq (subst (λ t. decode t ≡ some o) (sym (some-eq h2)) h1) in
      (
        r',
        subst (λ t. dimension_rule_to_daq_object d f t.0 t.1 ≡ some r') content is_read,
        (k, dimension_rule_kind-ChosenFor r.rule_type r refl, related),
      )

  -- The name is kept, the id of the unit is cut to 32 bits, and the rule is converted.
  pub data DimensionRead (a b : Dimension O) : Type ℓ where
    as_dimension :
        a.name ≡ b.name
        → Both (λ u u'. u' ≡ with_short_id u) a.unit b.unit
        → Both RuleRead a.rule b.rule
        → DimensionRead a b

  abbrev pub IsReadableDimension : Dimension O → Type ℓ
  IsReadableDimension dim = OnAssigned (IsReadable d f) dim.rule

  pub dimension_law :
      (k : DimensionKind) → IsReadAs (dimension_converter d f) IsReadableDimension DimensionRead k
  unfolding dimension_to_tms_type dimension_to_daq_object
  dimension_law dimension_descriptor dim s p h =
      let (unit, unit_written, h1) =
        >>=-eq-some (convert_if_assigned (unit_to_tms_type eu_information_with_quantity) dim.unit) _
          h in
      let (rule, rule_written, h2) =
        >>=-eq-some (convert_if_assigned (rule_to_object d f) dim.rule) _ h1 in
      let (unit', unit_read, same_unit) =
        convert_if_assigned-Both (unit_to_tms_type eu_information_with_quantity)
          (unit_to_daq_object eu_information_with_quantity) (λ u. Unit {0})
          (λ u u'. u' ≡ with_short_id u) unit_law dim.unit (OnAssigned-Unit dim.unit)
          unit_written in
      let (rule', rule_read, same_rule) =
        convert_if_assigned-Both (rule_to_object d f)
          (λ ks. dimension_rule_to_daq_object d f ks.0 ks.1) (IsReadable d f) RuleRead rule_law
          dim.rule p rule_written in
      let read : Dimension O = record { name = dim.name; unit = unit'; rule = rule' } in
      (
        read,
        subst (λ t. dimension_to_daq_object d f dimension_descriptor t ≡ some read) (some-eq h2)
            (rw (unit_read, rule_read) refl),
        as_dimension refl same_unit same_rule,
      )
  dimension_law other_descriptor dim s p h = absurd (cc)

  -- Every list of dimensions that is written without an exception is read as a list of the same
  -- length without a missing dimension, if no dimension has a rule with an empty list. Each keeps its
  -- name; a missing unit or rule stays missing, and one that is there is read as the unit with its id
  -- in 32 bits and as the rule that its structure stands for.
  pub dimensions-RoundTrip :
      (target : Option DimensionKind) (dims : List (Dimension O))
      {v : Variant (DimensionStructure F X)}
      → All IsReadableDimension dims
      → dimension_to_array_variant d f target dims ≡ some v
      → (dims' : List (Dimension O)) × (to_daq_list (dimension_converter d f) v
          ≡ some (map some dims'))
        × AllTwo DimensionRead dims dims'
  dimensions-RoundTrip target dims a h =
      to_daq_list-to_array_variant (dimension_converter d f) IsReadableDimension
        (λ k. DimensionRead) dimension_law (some (or_else target dimension_descriptor)) dims a h
