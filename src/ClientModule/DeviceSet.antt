-- ===== src/ClientModule/DeviceSet.antt =====
-- The device node: the one of the configuration, or the only device of the server's DeviceSet.
use opc_ua_modules.Base.{
  ℕ, zero, suc, ◌%◌, ◌^◌, Bool, true, false, ◌||◌, Option, none, some, List, [], ◌∷◌, String, HasEq,
  ◌==◌, string_eq, if◌then◌else◌,
}
use opc_ua_modules.Base.Int.{ℤ}
use opc_ua_modules.MonitoredItem.State.{Reply, replied, denied, failed}
use opc_ua_modules.MonitoredItem.Configuration.{as_unsigned, is_pos}
use opc_ua_modules.ClientModule.Service.{
  ClientService, DeviceReference, DeviceInfoList, read_device_info_from_root_device,
}

-- The result of a call that may throw an `OpcUaException`.
infixl 5 ◌>>=◌
abbrev pub ◌>>=◌ {ℓ κ} : {A : Type ℓ} {B : Type κ} → Reply A → (A → Reply B) → Reply B
replied a >>= f = f a
denied >>= f = denied
failed >>= f = failed

-- The loop of `findNamespaceIndex` from index `i` on.
unfoldable pub index_from : String → ℕ → List String → Option ℕ
index_from uri i [] = none
index_from uri i (u ∷ us) = if u == uri then some (i % 2 ^ 16) else index_from uri (suc i) us

unfoldable pub find_namespace_index {ℓ} : {N : Type ℓ} → ClientService N → String → Reply (Option ℕ)
unfolding index_from
find_namespace_index s uri = do
  uris ← s.namespace_array
  replied (elim uris [ none ↦ none | some us ↦ index_from uri 0 us ])

-- The properties of the configuration that name the device node.
pub record NodeConfig {ℓ} (N : Type ℓ) : Type ℓ where
  pub device_node_id_type : ℤ
  pub device_node_id_string : String
  pub device_node_id_numeric : ℤ
  pub device_namespace_index : ℤ
  pub string_node_id : ℕ → String → N
  pub numeric_node_id : ℕ → ℕ → N

-- The ids of the Device Integration namespace.
abbrev pub di_namespace_uri : String
di_namespace_uri = "http://opcfoundation.org/UA/DI/"

abbrev pub di_device_set_id : ℕ
di_device_set_id = 5001

abbrev pub di_device_type_id : ℕ
di_device_type_id = 1002

abbrev pub di_component_type_id : ℕ
di_component_type_id = 15063

abbrev pub max_type_hierarchy_depth : ℕ
max_type_hierarchy_depth = 32

module _ {ℓ} {N : Type ℓ} ⦃e : HasEq N⦄ (null : N) where
  abbrev pub elem : N → List N → Bool
  elem a [] = false
  elem a (b ∷ bs) = b == a || elem a bs

  pub read_root_node_id_from_config : NodeConfig N → N
  unfolding as_unsigned
  read_root_node_id_from_config c =
      let ns = as_unsigned 16 c.device_namespace_index in
      if is_pos 1 c.device_node_id_type
      then (if c.device_node_id_string == ""
          then null
          else c.string_node_id ns c.device_node_id_string)
      else c.numeric_node_id ns (as_unsigned 32 c.device_node_id_numeric)

  abbrev pub first_or_null : List N → N
  first_or_null [] = null
  first_or_null (a ∷ as') = a

  -- The loop of `isSubtypeOfAny` with `depth` rounds left.
  unfoldable pub is_subtype_of_any_within : ℕ → ClientService N → N → List N → Reply Bool
  is_subtype_of_any_within zero s id bases = replied false
  is_subtype_of_any_within (suc depth) s id bases =
      if id == null
      then replied false
      else if elem id bases
      then replied true
      else (s.supertypes id >>= λ types.
          is_subtype_of_any_within depth s (first_or_null types) bases)

  unfoldable pub is_subtype_of_any : ClientService N → N → List N → Reply Bool
  unfolding is_subtype_of_any_within
  is_subtype_of_any s id bases = is_subtype_of_any_within max_type_hierarchy_depth s id bases

  -- The references whose type is one of the bases or a subtype of one.
  pub find_devices : ClientService N → List N → List (DeviceReference N) → Reply (List N)
  unfolding is_subtype_of_any
  find_devices s bases [] = replied []
  find_devices s bases (r ∷ rs) = is_subtype_of_any s r.type_definition bases >>= λ is_device.
      find_devices s bases rs >>= λ rest. replied (if is_device then r.node_id ∷ rest else rest)

  abbrev only_or_null : List N → N
  only_or_null [] = null
  only_or_null (a ∷ []) = a
  only_or_null (a ∷ b ∷ as') = null

  -- The calls of `findDeviceNodeInDeviceSet` that may throw. `di_id` makes a numeric id.
  pub look_for_device : (ℕ → ℕ → N) → ClientService N → Reply N
  unfolding find_namespace_index find_devices
  look_for_device di_id s = find_namespace_index s di_namespace_uri >>= λ index. elim index [
    | none ↦ replied null
    | some i ↦ s.node_exists (di_id i di_device_set_id) >>= λ exists. elim exists [
      | false ↦ replied null
      | true ↦
          s.browse_devices (di_id i di_device_set_id)
          >>= find_devices s (di_id i di_component_type_id ∷ di_id i di_device_type_id ∷ [])
          >>= λ ids. replied (only_or_null ids)
    ]
  ]

  -- `findDeviceNodeInDeviceSet`, which answers with the null id when a call throws.
  pub find_device_node_in_device_set : (ℕ → ℕ → N) → Option (ClientService N) → N
  unfolding look_for_device
  find_device_node_in_device_set di_id none = null
  find_device_node_in_device_set di_id (some s) = elim (look_for_device di_id s) [
    | replied id ↦ id
    | denied ↦ null
    | failed ↦ null
  ]

  abbrev is_empty : DeviceInfoList → Bool
  is_empty [] = true
  is_empty (x ∷ xs) = false

  -- `readDeviceInfo`
  pub read_device_info : (ℕ → ℕ → N) → Option (ClientService N) → N → DeviceInfoList
  unfolding read_device_info_from_root_device find_device_node_in_device_set
  read_device_info di_id s configured =
      let configured_info = read_device_info_from_root_device s configured in
      let found = find_device_node_in_device_set di_id s in
      let found_info = if found == null then [] else read_device_info_from_root_device s found in
      if configured == null
      then found_info
      else if is_empty configured_info
      then found_info
      else configured_info
