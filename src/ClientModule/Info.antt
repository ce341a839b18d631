-- ===== src/ClientModule/Info.antt =====
-- The configuration with its defaults, and the device info filled from the device's properties.
use opc_ua_modules.Base.{
  ◌≡◌, ◌≢◌, refl, ap, ◌∙◌, inl, inr, true, not, ◌||◌, none, some, List, [], ◌∷◌, All, String, ◌==◌,
  ==_ne, ==_sound, sym, string_eq, if◌then◌else◌, Bool-cases, Option-cases, or_else,
}
use opc_ua_modules.Base.Dict.{lookup, put, contains, lookup-put, contains-put}
use opc_ua_modules.ClientModule.Service.{
  InfoValue, DeviceInfoList, Field, text_field, number_field, device_info_map,
}

-- `populateDefaultConfig`: each default with the value of the configuration, where it has one.
pub populate_default_config {ℓ} :
    {V : Type ℓ} → List (String × V) → List (String × V) → List (String × V)
unfolding lookup
populate_default_config [] config = []
populate_default_config ((name, v) ∷ defaults) config =
    (name, or_else (lookup name config) v) ∷ populate_default_config defaults config

-- `setProtectedPropertyValue` on a device info that has the property.
pub set_field : String → Field → List (String × Field) → List (String × Field)
unfolding lookup contains put
set_field browse_name value info = elim (lookup browse_name device_info_map) [
  | none ↦ info
  | some property ↦
      if property == ""
      then info
      else if contains property info
      then put property value info
      else info
]

-- The setter for a text, which leaves out an empty one.
pub set_text : String → String → List (String × Field) → List (String × Field)
unfolding set_field
set_text browse_name value info =
    if value == "" then info else set_field browse_name (text_field value) info

pub populate_entry : String → InfoValue → List (String × Field) → List (String × Field)
unfolding contains set_field set_text
populate_entry name v info =
    if not (contains name device_info_map) || not v.is_scalar
    then info
    else if v.is_string
    then set_text name v.text info
    else if v.is_integer
    then set_field name (number_field v.number) info
    else info

-- `populateDeviceInfoFromRootDevice`
pub populate_device_info_from_root_device :
    DeviceInfoList → List (String × Field) → List (String × Field)
unfolding populate_entry
populate_device_info_from_root_device [] info = info
populate_device_info_from_root_device ((name, v) ∷ l) info =
    populate_device_info_from_root_device l (populate_entry name v info)

-- A name of the defaults has the configuration's value where it has one, and the default elsewhere;
-- a name that is not among the defaults is left out.
lookup-populate_default_config {ℓ} :
    {V : Type ℓ} (name : String) (defaults config : List (String × V))
    → lookup name (populate_default_config defaults config)
      ≡ elim (lookup name defaults) [ none ↦ none | some v ↦ some (or_else (lookup name config) v) ]
unfolding populate_default_config lookup
lookup-populate_default_config name [] config = refl
lookup-populate_default_config name ((n, v) ∷ defaults) config = elim (Bool-cases (n == name)) [
  | inl h ↦ rw h (ap (λ m. some (or_else (lookup m config) v)) (==_sound n name h))
  | inr h ↦ rw h (lookup-populate_default_config name defaults config)
]

-- A change of a device info that adds no property and leaves one as it is.
abbrev Keeps : String → List (String × Field) → List (String × Field) → Type 0
Keeps p a b = ((q : String) → contains q b ≡ contains q a) × (lookup p b ≡ lookup p a)

Keeps-refl : (p : String) (a : List (String × Field)) → Keeps p a a
Keeps-refl p a = (λ q. refl, refl)

-- The property of the browse name is another one.
abbrev pub IsElsewhere : String → String → Type 0
IsElsewhere p name = lookup name device_info_map ≢ some p

set_field-Keeps :
    (p name : String) (v : Field) (info : List (String × Field))
    → IsElsewhere p name
    → Keeps p info (set_field name v info)
unfolding set_field
set_field-Keeps p name v info n = elim (Option-cases (lookup name device_info_map)) [
  | inl h ↦ rw (h, set_field) (Keeps-refl p info)
  | inr (q, h) ↦ elim (Bool-cases (q == "")) [
    | inl g ↦ rw (h, g, set_field) (Keeps-refl p info)
    | inr g ↦ elim (Bool-cases (contains q info)) [
      | inr k ↦ rw (h, g, k, set_field) (Keeps-refl p info)
      | inl k ↦
          rw (h, g, k, set_field)
            (
              λ r. contains-put q r v info ∙ same q r k,
              lookup-put q p v info ∙ rw (==_ne q p (λ e. n (h ∙ ap some e))) refl,
            )
    ]
  ]
]
  where
    same :
        (q r : String)
        → contains q info ≡ true
        → (if q == r then true else contains r info) ≡ contains r info
    same q r k = elim (Bool-cases (q == r)) [
      | inl e ↦ rw e (rw (← ==_sound q r e) (sym k))
      | inr e ↦ rw e refl
    ]

Keeps-trans : (p : String) (a b c : List (String × Field)) → Keeps p a b → Keeps p b c → Keeps p a c
Keeps-trans p a b c (f, g) (h, k) = (λ q. h q ∙ f q, k ∙ g)

set_text-Keeps :
    (p name value : String) (info : List (String × Field))
    → IsElsewhere p name
    → Keeps p info (set_text name value info)
unfolding set_text
set_text-Keeps p name value info n = elim (Bool-cases (value == "")) [
  | inl h ↦ rw h (Keeps-refl p info)
  | inr h ↦ rw h (set_field-Keeps p name (text_field value) info n)
]

populate_entry-Keeps :
    (p name : String) (v : InfoValue) (info : List (String × Field))
    → IsElsewhere p name
    → Keeps p info (populate_entry name v info)
unfolding populate_entry
populate_entry-Keeps p name v info n =
    elim (Bool-cases (not (contains name device_info_map) || not v.is_scalar)) [
      | inl h ↦ rw h (Keeps-refl p info)
      | inr h ↦ elim (Bool-cases v.is_string) [
        | inl g ↦ rw (h, g) (set_text-Keeps p name v.text info n)
        | inr g ↦ elim (Bool-cases v.is_integer) [
          | inl k ↦ rw (h, g, k) (set_field-Keeps p name (number_field v.number) info n)
          | inr k ↦ rw (h, g, k) (Keeps-refl p info)
        ]
      ]
    ]

-- Filling in the device info makes no property that was not there, and a property that none of the
-- entries stands for keeps its value.
pub populate_device_info_from_root_device_lem :
    (p : String) (l : DeviceInfoList) (info : List (String × Field))
    → All (λ (x : String × InfoValue). IsElsewhere p x.0) l
    → let r = populate_device_info_from_root_device l info in
      ((q : String) → contains q r ≡ contains q info) × (lookup p r ≡ lookup p info)
unfolding populate_device_info_from_root_device
populate_device_info_from_root_device_lem p [] info a = (λ q. refl, refl)
populate_device_info_from_root_device_lem p ((name, v) ∷ l) info a =
    let next = populate_entry name v info in
    Keeps-trans p info next (populate_device_info_from_root_device l next)
      (populate_entry-Keeps p name v info a.0)
      (populate_device_info_from_root_device_lem p l next a.1)
