-- ===== src/ClientModule/LocalId.antt =====
-- The local id of a device: `buildDeviceLocalId`.
use Prim.Native.Char.{Char, code}
use Prim.Native.String.{◌++◌ as str_append}
use opc_ua_modules.Base.{
  ap, ◌∙◌, keep, ◌≡◌, refl, arith, ◌⊎◌, inl, inr, Bool, false, ◌&&◌, ◌||◌, Option, none, some, List,
  [], ◌∷◌, String, ◌==◌, string_eq, nat_beq, if◌then◌else◌, Bool-cases,
}
use opc_ua_modules.ClientModule.Service.{DeviceInfoList, InfoValue}

-- `ApplicationDescription`
pub record ApplicationDescription : Type 0 where
  pub uri : String
  pub name : String
  pub product_uri : String

-- The parent component: `hasItem` if it is a folder.
abbrev pub Parent : Type 0
Parent = Option (String → Bool)

abbrev pub is_taken : Parent → String → Bool
is_taken none id = false
is_taken (some has_item) id = has_item id

abbrev dash : Char
dash = "-"

-- `tweakLocalId` replaces every '/'.
pub tweak_local_id : String → String
tweak_local_id String.[] = String.[]
tweak_local_id (String.◌∷◌ c s) =
    String.◌∷◌ (if nat_beq (code c) b'/' then dash else c) (tweak_local_id s)

-- The text of the first entry of that name that is a text, and an empty one where there is none.
pub find_text : String → DeviceInfoList → String
find_text name [] = ""
find_text name ((n, v) ∷ l) = if n == name && v.is_string then v.text else find_text name l

abbrev pub is_empty_text : String → Bool
is_empty_text s = s == ""

-- Manufacturer and serial number, or the serial number alone.
pub root_text : DeviceInfoList → String
unfolding find_text
root_text info =
    let manufacturer = find_text "Manufacturer" info in
    let serial = find_text "SerialNumber" info in
    if is_empty_text manufacturer then serial else str_append (str_append manufacturer "_") serial

-- The last step: the application URI.
pub id_from_description : Parent → ApplicationDescription → String
unfolding tweak_local_id
id_from_description parent desc =
    let id = tweak_local_id desc.uri in
    if is_empty_text id then "" else if is_taken parent id then "" else id

-- The second step, from the serial number and the text that the device's properties make.
pub choose_id : Parent → String → String → ApplicationDescription → String
unfolding tweak_local_id id_from_description
choose_id parent serial root desc =
    let id = tweak_local_id root in
    if is_empty_text serial
    then id_from_description parent desc
    else if is_taken parent id
    then id_from_description parent desc
    else id

pub id_from_server : Parent → DeviceInfoList → ApplicationDescription → String
unfolding root_text choose_id
id_from_server parent info desc =
    choose_id parent (find_text "SerialNumber" info) (root_text info) desc

pub build_device_local_id : Parent → String → DeviceInfoList → ApplicationDescription → String
unfolding id_from_server
build_device_local_id parent user info desc =
    if is_empty_text user
    then id_from_server parent info desc
    else if is_taken parent user
    then id_from_server parent info desc
    else user

-- A text without '/'.
unfoldable pub has_slash : String → Bool
has_slash String.[] = false
has_slash (String.◌∷◌ c s) = nat_beq (code c) b'/' || has_slash s

has_slash-tweak_local_id : (s : String) → has_slash (tweak_local_id s) ≡ false
unfolding has_slash tweak_local_id
has_slash-tweak_local_id String.[] = refl
has_slash-tweak_local_id (String.◌∷◌ c s) = elim (Bool-cases (nat_beq (code c) b'/')) [
  | inl h ↦ rw h (has_slash-tweak_local_id s)
  | inr h ↦ rw (h, h) (has_slash-tweak_local_id s)
]

-- A text that a sibling does not have, and without '/'; or none.
abbrev pub IsUsable : Parent → String → Type 0
IsUsable parent id = ((id ≡ "") ⊎ (is_taken parent id ≡ false)) × (has_slash id ≡ false)

id_from_description-IsUsable :
    (parent : Parent) (desc : ApplicationDescription)
    → IsUsable parent (id_from_description parent desc)
unfolding id_from_description has_slash
id_from_description-IsUsable parent desc =
    let id = tweak_local_id desc.uri in
    elim (Bool-cases (is_empty_text id)) [
      | inl h ↦ rw h (inl refl, refl)
      | inr h ↦ elim (Bool-cases (is_taken parent id)) [
        | inl g ↦ rw (h, g) (inl refl, refl)
        | inr g ↦ rw (h, g) (inr g, has_slash-tweak_local_id desc.uri)
      ]
    ]

choose_id-IsUsable :
    (parent : Parent) (serial root : String) (desc : ApplicationDescription)
    → IsUsable parent (choose_id parent serial root desc)
unfolding choose_id
choose_id-IsUsable parent serial root desc = elim (Bool-cases (is_empty_text serial)) [
  | inl h ↦ rw h (id_from_description-IsUsable parent desc)
  | inr h ↦ elim (Bool-cases (is_taken parent (tweak_local_id root))) [
    | inl g ↦ rw (h, g) (id_from_description-IsUsable parent desc)
    | inr g ↦ rw (h, g) (inr g, has_slash-tweak_local_id root)
  ]
]

id_from_server-IsUsable :
    (parent : Parent) (info : DeviceInfoList) (desc : ApplicationDescription)
    → IsUsable parent (id_from_server parent info desc)
unfolding id_from_server
id_from_server-IsUsable parent info desc =
    choose_id-IsUsable parent (find_text "SerialNumber" info) (root_text info) desc

-- The first text of that name among the device's properties.
abbrev pub text_of_all : DeviceInfoList → String
text_of_all [] = ""
text_of_all ((n, v) ∷ rest) = v.text

abbrev pub first_text : String → DeviceInfoList → String
first_text name info =
    text_of_all (keep (λ (p : String × InfoValue). p.0 == name && p.1.is_string) info)

find_text-first_text :
    (name : String) (info : DeviceInfoList) → find_text name info ≡ first_text name info
unfolding find_text
find_text-first_text name [] = refl
find_text-first_text name ((n, v) ∷ rest) = elim (Bool-cases (n == name && v.is_string)) [
  | inl h ↦ rw (h, find_text) refl
  | inr h ↦ rw (h, find_text) (find_text-first_text name rest)
]

-- The ids from the server, in order: the one that the manufacturer and the serial number make, if
-- there is a serial number, and the one of the application URI, both with '/' replaced.
abbrev pub of_server : String → String → ApplicationDescription → List String
of_server serial manufacturer desc =
    let named =
      if manufacturer == "" then serial else str_append (str_append manufacturer "_") serial in
    let last = if tweak_local_id desc.uri == "" then [] else tweak_local_id desc.uri ∷ [] in
    if serial == "" then last else tweak_local_id named ∷ last

-- The ids that are offered, in order: the one of the configuration, unless it is empty, and those
-- from the server.
abbrev pub offered : String → DeviceInfoList → ApplicationDescription → List String
offered user info desc =
    let rest = of_server (first_text "SerialNumber" info) (first_text "Manufacturer" info) desc in
    if user == "" then rest else user ∷ rest

-- The first that no sibling has, and an empty text if there is none.
abbrev pub first_free : (String → Bool) → List String → String
first_free taken [] = ""
first_free taken (id ∷ ids) = if taken id then first_free taken ids else id

id_from_description-first_free :
    (parent : Parent) (desc : ApplicationDescription)
    → id_from_description parent desc
      ≡ first_free
          (is_taken parent)
          (if tweak_local_id desc.uri == "" then [] else tweak_local_id desc.uri ∷ [])
unfolding id_from_description
id_from_description-first_free parent desc = ground arith

choose_id-first_free :
    (parent : Parent) (serial root : String) (desc : ApplicationDescription)
    → let of_server = if tweak_local_id desc.uri == "" then [] else tweak_local_id desc.uri ∷ [] in
      choose_id parent serial root desc
      ≡ first_free
          (is_taken parent)
          (if serial == "" then of_server else tweak_local_id root ∷ of_server)
unfolding choose_id
choose_id-first_free parent serial root desc =
    let last = id_from_description-first_free parent desc in
    elim (Bool-cases (is_empty_text serial)) [
      | inl h ↦ rw (h, choose_id) last
      | inr h ↦ elim (Bool-cases (is_taken parent (tweak_local_id root))) [
        | inl g ↦ rw (h, g) last
        | inr g ↦ rw (h, g) refl
      ]
    ]

id_from_server-first_free :
    (parent : Parent) (info : DeviceInfoList) (desc : ApplicationDescription)
    → id_from_server parent info desc
      ≡ first_free
          (is_taken parent)
          (of_server (first_text "SerialNumber" info) (first_text "Manufacturer" info) desc)
unfolding id_from_server root_text
id_from_server-first_free parent info desc =
    choose_id-first_free parent (find_text "SerialNumber" info) (root_text info) desc
    ∙ ap (λ m. first_free (is_taken parent) (of_server (find_text "SerialNumber" info) m desc))
        (find_text-first_text "Manufacturer" info)
    ∙ ap (λ n. first_free (is_taken parent) (of_server n (first_text "Manufacturer" info) desc))
        (find_text-first_text "SerialNumber" info)

-- The id is the first of those that are offered that no sibling has, or empty, which makes the device
-- generate one. It is not taken, and one that is not the configuration's has no '/'.
pub build_device_local_id_lem :
    (parent : Parent) (user : String) (info : DeviceInfoList) (desc : ApplicationDescription)
    → let id = build_device_local_id parent user info desc in
      (id ≡ first_free (is_taken parent) (offered user info desc))
      × ((id ≡ "") ⊎ (is_taken parent id ≡ false))
      × ((id ≡ user) ⊎ (has_slash id ≡ false))
unfolding build_device_local_id
build_device_local_id_lem parent user info desc =
    let (free, plain) = id_from_server-IsUsable parent info desc in
    let next = id_from_server-first_free parent info desc in
    elim (Bool-cases (is_empty_text user)) [
      | inl h ↦ rw h (next, free, inr plain)
      | inr h ↦ elim (Bool-cases (is_taken parent user)) [
        | inl g ↦ rw (h, g) (next, free, inr plain)
        | inr g ↦ rw (h, g) (refl, inr g, inl refl)
      ]
    ]
