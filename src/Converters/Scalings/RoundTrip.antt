-- ===== src/Converters/Scalings/RoundTrip.antt =====
-- Scalings, written and read.
use opc_ua_modules.Base.{
  ◌≡◌, refl, ap, subst, ◌∙◌, true, Option, some, List, map, or_else, Bool-cases, inl, inr,
}
use opc_ua_modules.Converters.Variants.{
  Variant, ◌>>=◌, >>=-eq-some, some-eq, AllTwo, All-Unit, IsReadAs, to_daq_list,
  to_daq_list-to_array_variant,
}
use opc_ua_modules.Converters.Numbers.{
  Number, number_to_variant, number_to_daq_object-number_to_variant,
}
use opc_ua_modules.Converters.Parameters.{Objects, number_at}
use opc_ua_modules.Converters.SampleTypes.{
  TmsSample, sample_type_to_tms_enum, scaled_sample_type_to_tms_enum, without_struct,
  sample_type_from_tms_enum-sample_type_to_tms_enum,
  scaled_sample_type_from_tms_enum-scaled_sample_type_to_tms_enum,
}
use opc_ua_modules.Converters.Scalings.{
  Scaling, ScalingKind, post_scaling, linear_scaling, other_scaling, LinearScalingDescription,
  ScalingStructure, ScalingFactories, read_linear, with_types, read_description,
  scaling_to_daq_object, scaling_to_tms_type, scaling_converter, scaling_to_array_variant,
}

module _ {ℓ} {F X O : Type ℓ} (d : Objects F X O) (f : ScalingFactories F O) where
  -- What a scaling is read as, that was written as a structure.
  pub data ScalingRead (s : Scaling O) : ScalingKind → Scaling O → Type ℓ where
    as_post_scaling :
        {scale offset : Number F}
        → number_at d "scale" s.parameters ≡ some scale
        → number_at d "offset" s.parameters ≡ some offset
        → ScalingRead s post_scaling (
            f.scaling_builder_copy
              (f.linear_scaling_of scale offset)
              (without_struct s.input_sample_type)
              s.output_sample_type)
    as_linear_scaling :
        {scale offset : Number F}
        → s.is_linear ≡ true
        → number_at d "scale" s.parameters ≡ some scale
        → number_at d "offset" s.parameters ≡ some offset
        → ScalingRead s linear_scaling (f.linear_scaling_of scale offset)

  linear_of : Number F → Number F → LinearScalingDescription F X
  linear_of scale offset = record {
    type_name = "linear";
    scale = number_to_variant scale;
    offset = number_to_variant offset;
  }

  read_linear-linear_of :
      (scale offset : Number F)
      → read_linear d f (linear_of scale offset) ≡ some (f.linear_scaling_of scale offset)
  unfolding read_linear linear_of
  read_linear-linear_of scale offset =
      rw
        (
          number_to_daq_object-number_to_variant X scale,
          number_to_daq_object-number_to_variant X offset,
        )
        refl

  with_types-read :
      (s r : Scaling O) {input output : TmsSample}
      → sample_type_to_tms_enum s.input_sample_type ≡ some input
      → scaled_sample_type_to_tms_enum s.output_sample_type ≡ some output
      → with_types d f input output r
        ≡ some (f.scaling_builder_copy r (without_struct s.input_sample_type) s.output_sample_type)
  unfolding with_types
  with_types-read s r i o =
      rw
        (
          sample_type_from_tms_enum-sample_type_to_tms_enum s.input_sample_type i,
          scaled_sample_type_from_tms_enum-scaled_sample_type_to_tms_enum s.output_sample_type o,
        )
        refl

  pub scaling_law :
      (k : ScalingKind)
      → IsReadAs (scaling_converter d f) (λ s. Unit) (λ s s'. ScalingRead s k s') k
  unfolding scaling_to_daq_object scaling_to_tms_type read_description linear_of
  scaling_law post_scaling s t p h =
      let (input, has_input, h1) = >>=-eq-some (sample_type_to_tms_enum s.input_sample_type) _ h in
      let (output, has_output, h2) =
        >>=-eq-some (scaled_sample_type_to_tms_enum s.output_sample_type) _ h1 in
      let (scale, has_scale, h3) = >>=-eq-some (number_at d "scale" s.parameters) _ h2 in
      let (offset, has_offset, h4) = >>=-eq-some (number_at d "offset" s.parameters) _ h3 in
      let linear = f.linear_scaling_of scale offset in
      let read =
        f.scaling_builder_copy linear (without_struct s.input_sample_type) s.output_sample_type in
      (
        read,
        subst (λ x. scaling_to_daq_object d f post_scaling x ≡ some read) (some-eq h4)
            (ap (λ x. x >>= with_types d f input output) (read_linear-linear_of scale offset)
              ∙ with_types-read s linear has_input has_output),
        as_post_scaling has_scale has_offset,
      )
  scaling_law linear_scaling s t p h = elim (Bool-cases s.is_linear) [
    | inr other ↦ absurd (cc)
    | inl linear ↦
        let (scale, has_scale, h1) =
          >>=-eq-some (number_at d "scale" s.parameters) _ (rw linear at h) in
        let (offset, has_offset, h2) = >>=-eq-some (number_at d "offset" s.parameters) _ h1 in
        let read = f.linear_scaling_of scale offset in
        (
          read,
          subst (λ x. scaling_to_daq_object d f linear_scaling x ≡ some read) (some-eq h2)
              (read_linear-linear_of scale offset),
          as_linear_scaling linear has_scale has_offset,
        )
  ]
  scaling_law other_scaling s t p h = absurd (cc)

  -- Every list of scalings that is written without an exception is read as a list of the same length
  -- without a missing scaling. As post scalings they keep the factor, the offset and both types of
  -- samples, but for the input of a structure, which becomes invalid; as linear descriptions they
  -- keep the factor and the offset.
  pub scalings-RoundTrip :
      (target : Option ScalingKind) (ss : List (Scaling O)) {v : Variant (ScalingStructure F X)}
      → scaling_to_array_variant d f target ss ≡ some v
      → (ss' : List (Scaling O)) × (to_daq_list (scaling_converter d f) v ≡ some (map some ss'))
        × AllTwo (λ s s'. ScalingRead s (or_else target post_scaling) s') ss ss'
  scalings-RoundTrip target ss h =
      to_daq_list-to_array_variant (scaling_converter d f) (λ s. Unit)
        (λ k s s'. ScalingRead s k s') scaling_law (some (or_else target post_scaling)) ss
        (All-Unit ss) h
