-- ===== src/Converters/DimensionRules.antt =====
-- The rules of dimensions: dimension_rule_converter.cpp.
pub mod RoundTrip
use opc_ua_modules.Base.{
  ℕ, ◌^◌, ◌%◌, ◌≡◌, Bool, true, false, Option, none, some, List, [], ◌∷◌, map, String, string_eq,
}
use opc_ua_modules.Base.Dict.{lookup}
use opc_ua_modules.Base.Int.{ℤ}
use opc_ua_modules.Converters.Variants.{StructConverter, ◌>>=◌, traverse}
use opc_ua_modules.Converters.Numbers.{Number, Value, number_to_variant, number_to_daq_object}
use opc_ua_modules.Converters.Parameters.{
  Objects, has_type, number_at, read_parameters, write_parameter,
}

-- `DimensionRuleType`
pub data DimensionRuleType : Type 0 where
  linear_dimension logarithmic_dimension list_dimension other_dimension : DimensionRuleType

pub record DimensionRule {ℓ} (O : Type ℓ) : Type ℓ where
  pub rule_type : DimensionRuleType
  pub parameters : List (String × O)

pub data DimensionRuleKind : Type 0 where
  linear_structure log_structure list_structure custom_structure other_structure : DimensionRuleKind

module _ {ℓ} (F X : Type ℓ) where
  -- `UA_LinearRuleDescriptionStructure`; none is a size that is not there.
  pub record LinearStructure : Type ℓ where
    pub type_name : String
    pub delta : Value F X
    pub start : Value F X
    pub size : Option ℕ

  pub record LogStructure : Type ℓ where
    pub type_name : String
    pub delta : Value F X
    pub start : Value F X
    pub base : ℤ
    pub size : ℕ

  pub record ListStructure : Type ℓ where
    pub type_name : String
    pub elements : List (Value F X)

  pub record CustomStructure : Type ℓ where
    pub type_name : String
    pub parameters : List (Value F X × Value F X)

  abbrev pub DimensionRuleStructure : DimensionRuleKind → Type ℓ
  DimensionRuleStructure linear_structure = LinearStructure
  DimensionRuleStructure log_structure = LogStructure
  DimensionRuleStructure list_structure = ListStructure
  DimensionRuleStructure custom_structure = CustomStructure
  DimensionRuleStructure other_structure = Unit

-- openDAQ's factories, and what the members `base` and `size` of the generated structure of a
-- logarithmic rule hold of a value.
pub record DimensionRuleFactories {ℓ} (F O : Type ℓ) : Type ℓ where
  pub linear_dimension_rule : Number F → Number F → ℕ → DimensionRule O
  pub logarithmic_dimension_rule : Number F → Number F → ℤ → ℕ → DimensionRule O
  pub list_dimension_rule : List (Number F) → DimensionRule O
  pub log_base : ℤ → ℤ
  pub log_size : ℕ → ℕ

module _ {ℓ} {F X O : Type ℓ} (d : Objects F X O) (f : DimensionRuleFactories F O) where
  unfoldable pub dimension_rule_to_daq_object :
      (k : DimensionRuleKind) → DimensionRuleStructure F X k → Option (DimensionRule O)
  unfolding number_to_daq_object read_parameters
  dimension_rule_to_daq_object linear_structure s = has_type s.type_name "linear" >>= λ u.
      s.size >>= λ size. number_to_daq_object s.delta >>= λ delta.
      number_to_daq_object s.start >>= λ start. some (f.linear_dimension_rule delta start size)
  dimension_rule_to_daq_object log_structure s = has_type s.type_name "log" >>= λ u.
      number_to_daq_object s.delta >>= λ delta. number_to_daq_object s.start >>= λ start.
      some (f.logarithmic_dimension_rule delta start s.base s.size)
  dimension_rule_to_daq_object list_structure s = has_type s.type_name "List" >>= λ u.
      elim s.elements [
        | [] ↦ none
        | e ∷ es ↦
            traverse number_to_daq_object (e ∷ es) >>= λ list. some (f.list_dimension_rule list)
      ]
  dimension_rule_to_daq_object custom_structure s = has_type s.type_name "custom" >>= λ u.
      some record { rule_type = other_dimension; parameters = read_parameters d s.parameters [] }
  dimension_rule_to_daq_object other_structure s = none

  -- The other parameters.
  unfoldable pub size_at : List (String × O) → Option ℕ
  size_at params = lookup "size" params >>= d.as_size

  unfoldable pub base_at : List (String × O) → Option ℤ
  base_at params = lookup "base" params >>= d.as_int

  unfoldable pub list_at : List (String × O) → Option (List (Number F))
  list_at params = lookup "List" params >>= d.as_numbers

  -- The size of a linear rule is cut to 32 bits.
  unfoldable pub dimension_rule_to_tms_type :
      (k : DimensionRuleKind) → DimensionRule O → Option (DimensionRuleStructure F X k)
  unfolding number_to_variant number_at write_parameter size_at base_at list_at
  dimension_rule_to_tms_type linear_structure r = size_at r.parameters >>= λ size.
      number_at d "delta" r.parameters >>= λ delta. number_at d "start" r.parameters >>= λ start.
      some record {
        type_name = "linear";
        delta = number_to_variant delta;
        start = number_to_variant start;
        size = some (size % 2 ^ 32);
      }
  dimension_rule_to_tms_type log_structure r = size_at r.parameters >>= λ size.
      number_at d "delta" r.parameters >>= λ delta. number_at d "start" r.parameters >>= λ start.
      base_at r.parameters >>= λ base. some record {
        type_name = "log";
        delta = number_to_variant delta;
        start = number_to_variant start;
        base = f.log_base base;
        size = f.log_size size;
      }
  dimension_rule_to_tms_type list_structure r = list_at r.parameters >>= λ list.
      some record { type_name = "List"; elements = map number_to_variant list }
  dimension_rule_to_tms_type custom_structure r =
      traverse (write_parameter d) r.parameters >>= λ ps.
      some record { type_name = "custom"; parameters = ps }
  dimension_rule_to_tms_type other_structure r = none

  -- The switch of `ToVariant` without a target.
  abbrev pub dimension_rule_kind : DimensionRule O → DimensionRuleKind
  dimension_rule_kind r = elim r.rule_type [
    | linear_dimension ↦ linear_structure
    | logarithmic_dimension ↦ log_structure
    | list_dimension ↦ list_structure
    | other_dimension ↦ custom_structure
  ]

  abbrev pub takes_dimension_rule : DimensionRuleKind → Bool
  takes_dimension_rule other_structure = false
  takes_dimension_rule _ = true

  abbrev pub dimension_rule_converter :
      StructConverter (DimensionRuleStructure F X) (DimensionRule O)
  dimension_rule_converter = record {
    supports = takes_dimension_rule;
    to_daq_object = dimension_rule_to_daq_object;
    to_tms_type = dimension_rule_to_tms_type;
    kind_of = dimension_rule_kind;
  }
