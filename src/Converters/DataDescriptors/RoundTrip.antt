-- ===== src/Converters/DataDescriptors/RoundTrip.antt =====
-- Data descriptors, written and read, with all that they are made of.
use opc_ua_modules.Base.{
  ◌≡◌, refl, sym, ap, subst, ◌∙◌, Option, none, some, List, [], ◌∷◌, All, String, string_eq,
}
use opc_ua_modules.Base.Dict.{put}
use opc_ua_modules.Converters.Variants.{
  >>=-eq-some, some-eq, AllTwo, no_more, one_more, decode, traverse, to_variant,
}
use opc_ua_modules.Converters.Dictionaries.{AreDistinct, put_all, put_all-nil}
use opc_ua_modules.Converters.Numbers.{float_number}
use opc_ua_modules.Converters.Parameters.{Objects}
use opc_ua_modules.Converters.Units.{
  eu_information_with_quantity, unit_to_daq_object, unit_to_tms_type, with_short_id,
}
use opc_ua_modules.Converters.DataRules.{
  DataRule, DataRuleKind, DataRuleStructure, DataRuleFactories, data_rule_converter, data_rule_kind,
  data_rule_to_daq_object, data_rule_to_tms_type,
}
use opc_ua_modules.Converters.DataRules.RoundTrip.{ReadBack, by_type, data_rule_kind-Chosen, law}
use opc_ua_modules.Converters.DimensionRules.{DimensionRuleFactories}
use opc_ua_modules.Converters.Dimensions.{
  dimension_descriptor, convert_if_assigned, dimension_to_daq_object, dimension_to_tms_type,
}
use opc_ua_modules.Converters.Dimensions.RoundTrip.{
  Both, OnAssigned-Unit, convert_if_assigned-Both, unit_law, DimensionRead, IsReadableDimension,
  dimension_law,
}
use opc_ua_modules.Converters.SampleTypes.{
  sample_type_to_tms_enum, without_struct, sample_type_from_tms_enum-sample_type_to_tms_enum,
}
use opc_ua_modules.Converters.Scalings.{
  post_scaling, ScalingFactories, scaling_to_daq_object, scaling_to_tms_type,
}
use opc_ua_modules.Converters.Scalings.RoundTrip.{ScalingRead, scaling_law}
use opc_ua_modules.Converters.DataDescriptors.{
  DataDescriptor, DataDescriptorStructure, Members, write_metadata, read_metadata,
  range_to_tms_type, range_to_daq_object, ratio_to_tms_type, ratio_to_daq_object,
  descriptor_to_daq_object, data_rule_to_object, descriptor_to_tms_type,
}

module _ {ℓ} {A B : Type ℓ} (write : A → Option B) (read : B → Option A) (P : A → Type ℓ)
    (R : A → A → Type ℓ) where
  traverse-AllTwo :
      ((a : A) (b : B) → P a → write a ≡ some b → (a' : A) × (read b ≡ some a') × R a a')
      → (l : List A) {m : List B} → All P l
      → traverse write l ≡ some m
      → (l' : List A) × (traverse read m ≡ some l') × AllTwo R l l'
  traverse-AllTwo each [] {m} p h =
      ([], subst (λ t. traverse read t ≡ some []) (some-eq h) refl, no_more)
  traverse-AllTwo each (a ∷ l) {m} p h =
      let (b, written, h1) = >>=-eq-some (write a) _ h in
      let (m', written', h2) = >>=-eq-some (traverse write l) _ h1 in
      let (a', is_read, related) = each a b p.0 written in
      let (l', is_read', related') = traverse-AllTwo each l p.1 written' in
      (
        a' ∷ l',
        subst (λ t. traverse read t ≡ some (a' ∷ l')) (some-eq h2) (rw is_read (rw is_read' refl)),
        one_more related related',
      )

read_metadata-write_metadata {ℓ} :
    (F X : Type ℓ) (metadata dict : List (String × String))
    → read_metadata {F = F} {X = X} (write_metadata metadata) dict ≡ put_all metadata dict
unfolding read_metadata write_metadata put_all
read_metadata-write_metadata F X [] dict = refl
read_metadata-write_metadata F X ((name, value) ∷ rest) dict =
    read_metadata-write_metadata F X rest (put name value dict)

module _ {ℓ} {F X O : Type ℓ} (d : Objects F X O) (rf : DataRuleFactories F O)
    (mf : DimensionRuleFactories F O) (sf : ScalingFactories F O) where
  abbrev pub DataRuleRead : DataRule O → DataRule O → Type ℓ
  DataRuleRead = ReadBack d rf none

  data_rule_law :
      (r : DataRule O) (o : (k : DataRuleKind) × DataRuleStructure F X k)
      → Unit {ℓ}
      → data_rule_to_object d rf mf sf r ≡ some o
      → (r' : DataRule O) × (data_rule_to_daq_object d rf o.0 o.1 ≡ some r') × DataRuleRead r r'
  data_rule_law r o p h =
      let k = data_rule_kind d rf r in
      let (v, made, h1) = >>=-eq-some (to_variant (data_rule_converter d rf) none r) _ h in
      let (s, written, h2) = >>=-eq-some (data_rule_to_tms_type d rf k r) _ made in
      let (r', is_read, related) = law d rf k r s p written in
      let content : (k, s) ≡ o = some-eq (subst (λ t. decode t ≡ some o) (sym (some-eq h2)) h1) in
      (
        r',
        subst (λ t. data_rule_to_daq_object d rf t.0 t.1 ≡ some r') content is_read,
        (k, by_type (data_rule_kind-Chosen d rf r), related),
      )

  -- Member by member: the sample type, the name, the dimensions, the metadata, the unit, the range in
  -- doubles, the rule, the origin, the tick resolution as its members hold it, and the scaling.
  pub data DescriptorRead (w : Members F) (a b : DataDescriptor F O) : Type ℓ where
    as_descriptor :
        b.sample_type ≡ without_struct a.sample_type
        → b.name ≡ a.name
        → AllTwo (DimensionRead d mf) a.dimensions b.dimensions
        → (AreDistinct a.metadata → b.metadata ≡ a.metadata)
        → Both (λ u u'. u' ≡ with_short_id u) a.unit b.unit
        → Both
            (λ r r'. r' ≡ record {
              low = float_number (w.as_double r.low);
              high = float_number (w.as_double r.high);
            })
            a.value_range
            b.value_range
        → Both DataRuleRead a.rule b.rule
        → b.origin ≡ a.origin
        → Both
            (λ r r'. r' ≡ record {
              numerator = w.numerator64 r.numerator;
              denominator = w.denominator64 r.denominator;
            })
            a.tick_resolution
            b.tick_resolution
        → Both (λ s s'. ScalingRead d sf s post_scaling s') a.post_scaling b.post_scaling
        → DescriptorRead w a b

  -- A data descriptor that is written without an exception is read without one, if none of its
  -- dimensions has a rule with an empty list. Every member that is there is read as its own
  -- conversion makes it, every missing one stays missing, and metadata under names that differ are
  -- kept in their order: the range as the doubles of its bounds, the tick resolution as its members
  -- hold it, and the rule as the one of the structure that its type has.
  pub data_descriptor-RoundTrip :
      (w : Members F) (a : DataDescriptor F O) {s : DataDescriptorStructure F X}
      → All (IsReadableDimension d mf) a.dimensions
      → descriptor_to_tms_type d rf mf sf w a ≡ some s
      → (b : DataDescriptor F O) × (descriptor_to_daq_object d rf mf sf s ≡ some b)
        × DescriptorRead w a b
  unfolding descriptor_to_tms_type descriptor_to_daq_object
  data_descriptor-RoundTrip w a {s} p h =
      let (sample, sample_w, h1) = >>=-eq-some (sample_type_to_tms_enum a.sample_type) _ h in
      let (dims, dims_w, h2) =
        >>=-eq-some (traverse (dimension_to_tms_type d mf dimension_descriptor) a.dimensions) _
          h1 in
      let (unit, unit_w, h3) =
        >>=-eq-some (convert_if_assigned (unit_to_tms_type eu_information_with_quantity) a.unit) _
          h2 in
      let (range, range_w, h4) =
        >>=-eq-some (convert_if_assigned (range_to_tms_type w) a.value_range) _ h3 in
      let (rule, rule_w, h5) =
        >>=-eq-some (convert_if_assigned (data_rule_to_object d rf mf sf) a.rule) _ h4 in
      let (ratio, ratio_w, h6) =
        >>=-eq-some (convert_if_assigned (ratio_to_tms_type w) a.tick_resolution) _ h5 in
      let (scaling, scaling_w, h7) =
        >>=-eq-some (convert_if_assigned (scaling_to_tms_type d sf post_scaling) a.post_scaling) _
          h6 in
      let sample_r = sample_type_from_tms_enum-sample_type_to_tms_enum a.sample_type sample_w in
      let (dims', dims_r, dims_same) =
        traverse-AllTwo (dimension_to_tms_type d mf dimension_descriptor)
          (dimension_to_daq_object d mf dimension_descriptor) (IsReadableDimension d mf)
          (DimensionRead d mf) (dimension_law d mf dimension_descriptor) a.dimensions p dims_w in
      let (unit', unit_r, unit_same) =
        convert_if_assigned-Both (unit_to_tms_type eu_information_with_quantity)
          (unit_to_daq_object eu_information_with_quantity) (λ u. Unit)
          (λ u u'. u' ≡ with_short_id u) unit_law a.unit (OnAssigned-Unit a.unit) unit_w in
      let (range', range_r, range_same) =
        convert_if_assigned-Both (range_to_tms_type w) range_to_daq_object (λ r. Unit)
          (λ r r'. r' ≡ record {
            low = float_number (w.as_double r.low);
            high = float_number (w.as_double r.high);
          })
          (λ r b u e. (_, ap range_to_daq_object (sym (some-eq e)), refl)) a.value_range
          (OnAssigned-Unit a.value_range) range_w in
      let (rule', rule_r, rule_same) =
        convert_if_assigned-Both (data_rule_to_object d rf mf sf)
          (λ ks. data_rule_to_daq_object d rf ks.0 ks.1) (λ r. Unit) DataRuleRead data_rule_law
          a.rule (OnAssigned-Unit a.rule) rule_w in
      let (ratio', ratio_r, ratio_same) =
        convert_if_assigned-Both (ratio_to_tms_type w) ratio_to_daq_object (λ r. Unit)
          (λ r r'. r' ≡ record {
            numerator = w.numerator64 r.numerator;
            denominator = w.denominator64 r.denominator;
          })
          (λ r b u e. (_, ap ratio_to_daq_object (sym (some-eq e)), refl)) a.tick_resolution
          (OnAssigned-Unit a.tick_resolution) ratio_w in
      let (scaling', scaling_r, scaling_same) =
        convert_if_assigned-Both (scaling_to_tms_type d sf post_scaling)
          (scaling_to_daq_object d sf post_scaling) (λ s. Unit)
          (λ s s'. ScalingRead d sf s post_scaling s') (scaling_law d sf post_scaling)
          a.post_scaling (OnAssigned-Unit a.post_scaling) scaling_w in
      let read : DataDescriptor F O = record {
        sample_type = without_struct a.sample_type;
        name = a.name;
        dimensions = dims';
        metadata = read_metadata {F = F} {X = X} (write_metadata a.metadata) [];
        unit = unit';
        value_range = range';
        rule = rule';
        origin = a.origin;
        tick_resolution = ratio';
        post_scaling = scaling';
      } in
      (
        read,
        subst (λ t. descriptor_to_daq_object d rf mf sf t ≡ some read) (some-eq h7)
            (rw (sample_r, dims_r, unit_r, range_r, rule_r, ratio_r, scaling_r) refl),
        as_descriptor refl refl dims_same
            (λ distinct.
              read_metadata-write_metadata F X a.metadata [] ∙ put_all-nil a.metadata distinct)
            unit_same range_same rule_same refl ratio_same scaling_same,
      )
