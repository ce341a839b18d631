-- ===== src/Converters/DataRules.antt =====
-- The rules of data: data_rule_converter.cpp.
pub mod RoundTrip
use opc_ua_modules.Base.{
  ◌≡◌, refl, ap, Bool, true, false, ◌&&◌, Option, none, some, List, [], ◌∷◌, String, string_eq,
  ◌==◌, if◌then◌else◌,
}
use opc_ua_modules.Base.Dict.{lookup, put, contains}
use opc_ua_modules.Converters.Variants.{StructConverter, ◌>>=◌, traverse}
use opc_ua_modules.Base.Int.{pos}
use opc_ua_modules.Converters.Parameters.{
  Objects, has_type, number_at, read_parameters, write_parameter,
}
use opc_ua_modules.Converters.Numbers.{
  int_number, Number, Value, text_value, number_to_variant, number_to_daq_object,
}

-- `DataRuleType`
pub data DataRuleType : Type 0 where
  linear_rule constant_rule explicit_rule other_rule : DataRuleType

-- A rule with parameters of openDAQ's objects, `O`.
pub record DataRule {ℓ} (O : Type ℓ) : Type ℓ where
  pub rule_type : DataRuleType
  pub parameters : List (String × O)

-- The structures, and other ones.
pub data DataRuleKind : Type 0 where
  linear_description constant_description base_description explicit_domain_description
        custom_description other_description :
      DataRuleKind

module _ {ℓ} (F X : Type ℓ) where
  -- `UA_LinearRuleDescriptionStructure`; the size is for dimensions.
  pub record LinearDescription : Type ℓ where
    pub type_name : String
    pub delta : Value F X
    pub start : Value F X

  pub record ConstantDescription : Type ℓ where
    pub type_name : String
    pub value : Value F X

  pub record ExplicitDomainDescription : Type ℓ where
    pub type_name : String
    pub min_expected_delta : Value F X
    pub max_expected_delta : Value F X

  -- The parameters are pairs of a key and a value.
  pub record CustomDescription : Type ℓ where
    pub type_name : String
    pub parameters : List (Value F X × Value F X)

  pub record BaseDescription : Type ℓ where
    pub type_name : String

  abbrev pub DataRuleStructure : DataRuleKind → Type ℓ
  DataRuleStructure linear_description = LinearDescription
  DataRuleStructure constant_description = ConstantDescription
  DataRuleStructure base_description = BaseDescription
  DataRuleStructure explicit_domain_description = ExplicitDomainDescription
  DataRuleStructure custom_description = CustomDescription
  DataRuleStructure other_description = Unit

-- The factories of rules, of openDAQ.
pub record DataRuleFactories {ℓ} (F O : Type ℓ) : Type ℓ where
  pub linear_data_rule : Number F → Number F → DataRule O
  pub constant_data_rule : DataRule O
  pub explicit_data_rule : DataRule O
  pub explicit_domain_data_rule : Number F → Number F → DataRule O

module _ {ℓ} {F X O : Type ℓ} (d : Objects F X O) (f : DataRuleFactories F O) where
  unfoldable pub data_rule_to_daq_object :
      (k : DataRuleKind) → DataRuleStructure F X k → Option (DataRule O)
  unfolding number_to_daq_object read_parameters
  data_rule_to_daq_object linear_description s = has_type s.type_name "linear" >>= λ u.
      number_to_daq_object s.delta >>= λ delta.
      number_to_daq_object s.start >>= λ start. some (f.linear_data_rule delta start)
  data_rule_to_daq_object constant_description s = has_type s.type_name "constant" >>= λ u.
      number_to_daq_object s.value >>= λ value. some f.constant_data_rule
  data_rule_to_daq_object base_description s =
      has_type s.type_name "explicit" >>= λ u. some f.explicit_data_rule
  data_rule_to_daq_object explicit_domain_description s = has_type s.type_name "explicit" >>= λ u.
      number_to_daq_object s.min_expected_delta >>= λ least.
      number_to_daq_object s.max_expected_delta >>= λ most.
      some (f.explicit_domain_data_rule least most)
  data_rule_to_daq_object custom_description s = has_type s.type_name "custom" >>= λ u.
      some record { rule_type = other_rule; parameters = read_parameters d s.parameters [] }
  data_rule_to_daq_object other_description s = none

  unfoldable pub data_rule_to_tms_type :
      (k : DataRuleKind) → DataRule O → Option (DataRuleStructure F X k)
  unfolding number_to_variant number_at write_parameter
  data_rule_to_tms_type linear_description r = number_at d "delta" r.parameters >>= λ delta.
      number_at d "start" r.parameters >>= λ start. some record {
        type_name = "linear";
        delta = number_to_variant delta;
        start = number_to_variant start;
      }
  data_rule_to_tms_type constant_description r =
      some record { type_name = "constant"; value = number_to_variant (int_number (pos 0)) }
  data_rule_to_tms_type base_description r = some record { type_name = "explicit" }
  data_rule_to_tms_type explicit_domain_description r =
      number_at d "minExpectedDelta" r.parameters >>= λ least.
      number_at d "maxExpectedDelta" r.parameters >>= λ most. some record {
        type_name = "explicit";
        min_expected_delta = number_to_variant least;
        max_expected_delta = number_to_variant most;
      }
  data_rule_to_tms_type custom_description r = traverse (write_parameter d) r.parameters >>= λ ps.
      some record { type_name = "custom"; parameters = ps }
  data_rule_to_tms_type other_description r = none

  -- The switch of `ToVariant` without a target.
  unfoldable pub data_rule_kind : DataRule O → DataRuleKind
  unfolding contains
  data_rule_kind r = elim r.rule_type [
    | linear_rule ↦ linear_description
    | constant_rule ↦ constant_description
    | explicit_rule ↦
        if contains "minExpectedDelta" r.parameters && contains "maxExpectedDelta" r.parameters
        then explicit_domain_description
        else base_description
    | other_rule ↦ custom_description
  ]

  abbrev pub takes_data_rule : DataRuleKind → Bool
  takes_data_rule other_description = false
  takes_data_rule _ = true

  abbrev pub data_rule_converter : StructConverter (DataRuleStructure F X) (DataRule O)
  data_rule_converter = record {
    supports = takes_data_rule;
    to_daq_object = data_rule_to_daq_object;
    to_tms_type = data_rule_to_tms_type;
    kind_of = data_rule_kind;
  }
