-- ===== src/Converters/Parameters.antt =====
-- The parameters of rules: dictionaries of names and objects. data_rule_converter.cpp and
-- dimension_rule_converter.cpp read and write those of a custom rule in the same way.
use opc_ua_modules.Base.{
  ℕ, ◌≡◌, refl, sym, ap, subst, ◌∙◌, Option, none, some, List, [], ◌∷◌, ◌++◌, String, string_eq,
  ◌==◌, Option-cases, inl, inr, if◌then◌else◌,
}
use opc_ua_modules.Base.Int.{ℤ}
use opc_ua_modules.Base.Dict.{lookup, put}
use opc_ua_modules.Converters.Variants.{◌>>=◌, >>=-eq-some, some-eq, traverse}
use opc_ua_modules.Converters.Dictionaries.{
  AreDistinct, AllNew, AllNew-put, put-absent, append_one, append_nil,
}
use opc_ua_modules.Converters.Numbers.{Number, Value, text_value}

-- What openDAQ gives: the number, the numbers, the size or the integer that an object is, and the
-- converter of any object, `VariantConverter<IBaseObject>`.
pub record Objects {ℓ} (F X O : Type ℓ) : Type ℓ where
  pub as_number : O → Option (Number F)
  pub as_numbers : O → Option (List (Number F))
  pub as_size : O → Option ℕ
  pub as_int : O → Option ℤ
  pub base_to_variant : O → Option (Value F X)
  pub base_to_daq_object : Value F X → Option O

abbrev pub has_type : String → String → Option (Unit {0})
has_type name expected = if name == expected then some tt else none

module _ {ℓ} {F X O : Type ℓ} (d : Objects F X O) where
  -- `getParameters().get(name)` as a number; a name that is not there is an exception.
  unfoldable pub number_at : String → List (String × O) → Option (Number F)
  number_at name params = lookup name params >>= d.as_number

  -- The loop over the parameters of a custom rule: a key that is no text and a value that is not
  -- converted are left out.
  unfoldable pub read_parameters :
      List (Value F X × Value F X) → List (String × O) → List (String × O)
  read_parameters [] params = params
  read_parameters ((text_value key, value) ∷ rest) params = elim (d.base_to_daq_object value) [
    | none ↦ read_parameters rest params
    | some o ↦ read_parameters rest (put key o params)
  ]
  read_parameters ((_, value) ∷ rest) params = read_parameters rest params

  unfoldable pub write_parameter : String × O → Option (Value F X × Value F X)
  write_parameter (name, o) = d.base_to_variant o >>= λ value. some (text_value name, value)

  -- What an object becomes on the way through a variant.
  unfoldable pub survives : O → Option O
  survives o = d.base_to_variant o >>= d.base_to_daq_object

  survives_eq :
      (o : O) (value : Value F X)
      → d.base_to_variant o ≡ some value
      → survives o ≡ d.base_to_daq_object value
  unfolding survives
  survives_eq o value h = ap (λ t. t >>= d.base_to_daq_object) h

  -- The parameters whose value survives the way through a variant, with what it becomes.
  unfoldable pub survivors : List (String × O) → List (String × O)
  survivors [] = []
  survivors ((name, o) ∷ params) = elim (survives o) [
    | none ↦ survivors params
    | some o' ↦ (name, o') ∷ survivors params
  ]

  read_parameters-lost :
      (name : String) (value : Value F X) (qs : List (Value F X × Value F X))
      (acc : List (String × O))
      → d.base_to_daq_object value ≡ none
      → read_parameters ((text_value name, value) ∷ qs) acc ≡ read_parameters qs acc
  unfolding read_parameters
  read_parameters-lost name value qs acc lost = rw (read_parameters, lost) refl

  read_parameters-kept :
      (name : String) (value : Value F X) (o : O) (qs : List (Value F X × Value F X))
      (acc : List (String × O))
      → d.base_to_daq_object value ≡ some o
      → read_parameters ((text_value name, value) ∷ qs) acc ≡ read_parameters qs (put name o acc)
  unfolding read_parameters
  read_parameters-kept name value o qs acc kept = rw (read_parameters, kept) refl

  survivors-lost :
      (name : String) (o : O) (value : Value F X) (params : List (String × O))
      → d.base_to_variant o ≡ some value
      → d.base_to_daq_object value ≡ none
      → survivors ((name, o) ∷ params) ≡ survivors params
  unfolding survivors
  survivors-lost name o value params converted lost =
      rw (survivors, survives_eq o value converted ∙ lost) refl

  survivors-kept :
      (name : String) (o o' : O) (value : Value F X) (params : List (String × O))
      → d.base_to_variant o ≡ some value
      → d.base_to_daq_object value ≡ some o'
      → survivors ((name, o) ∷ params) ≡ (name, o') ∷ survivors params
  unfolding survivors
  survivors-kept name o o' value params converted kept =
      rw (survivors, survives_eq o value converted ∙ kept) refl

  -- The parameters of a custom rule that are written are read as those that survive.
  pub read_parameters-write :
      (params : List (String × O)) {qs : List (Value F X × Value F X)} (acc : List (String × O))
      → traverse write_parameter params ≡ some qs
      → AreDistinct params
      → AllNew acc params
      → read_parameters qs acc ≡ acc ++ survivors params
  unfolding read_parameters write_parameter survivors
  read_parameters-write [] {qs} acc h distinct new =
      subst (λ t. read_parameters t acc ≡ acc ++ []) (some-eq h) (sym (append_nil acc))
  read_parameters-write ((name, o) ∷ params) {qs} acc h distinct new =
      let (q, made, h1) = >>=-eq-some (write_parameter (name, o)) _ h in
      let (value, converted, h2) = >>=-eq-some (d.base_to_variant o) _ made in
      let (qs', made', h3) = >>=-eq-some (traverse write_parameter params) _ h1 in
      let shape : (text_value name, value) ∷ qs' ≡ qs =
        subst (λ t. t ∷ qs' ≡ qs) (sym (some-eq h2)) (some-eq h3) in
      subst (λ t. read_parameters t acc ≡ acc ++ survivors ((name, o) ∷ params)) shape
        (elim (Option-cases (d.base_to_daq_object value)) [
          | inl lost ↦
              read_parameters-lost name value qs' acc lost
              ∙ read_parameters-write params acc made' distinct.1 new.1
              ∙ ap (λ t. acc ++ t) (sym (survivors-lost name o value params converted lost))
          | inr (o', kept) ↦
              read_parameters-kept name value o' qs' acc kept
              ∙ read_parameters-write params (put name o' acc) made' distinct.1
                  (AllNew-put name o' acc params distinct.0 new.1)
              ∙ ap (λ t. t ++ survivors params) (put-absent name o' acc new.0)
              ∙ append_one name o' acc (survivors params)
              ∙ ap (λ t. acc ++ t) (sym (survivors-kept name o o' value params converted kept))
        ])
