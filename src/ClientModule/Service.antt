-- ===== src/ClientModule/Service.antt =====
-- What the module asks of the OPC UA client, and reading the device's properties.
use opc_ua_modules.Base.{
  Bool, true, not, Option, none, some, List, [], ◌∷◌, String, string_eq, if◌then◌else◌,
}
use opc_ua_modules.Base.Int.{ℤ}
use opc_ua_modules.Base.Dict.{contains}
use opc_ua_modules.MonitoredItem.State.{Reply, replied, denied, failed}

-- The value of a property: a variant, with what `isScalar`, `isString`, `isInteger`, `toString` and
-- `toInteger` answer.
pub record InfoValue : Type 0 where
  pub is_scalar : Bool
  pub is_string : Bool
  pub is_integer : Bool
  pub text : String
  pub number : ℤ

-- A reference of the browsed DeviceSet.
pub record DeviceReference {ℓ} (N : Type ℓ) : Type ℓ where
  pub node_id : N
  pub type_definition : N

-- `browse_properties` is `referencesByBrowseName` of the browsed properties; `namespace_array` has
-- none where the value is not an array of strings; `supertypes` is the inverse HasSubtype browse.
pub record ClientService {ℓ} (N : Type ℓ) : Type ℓ where
  pub node_exists : N → Reply Bool
  pub browse_properties : N → Reply (List (String × N))
  pub read_value : N → Reply InfoValue
  pub namespace_array : Reply (Option (List String))
  pub browse_devices : N → Reply (List (DeviceReference N))
  pub supertypes : N → Reply (List N)

-- `deviceInfoMap`
abbrev pub device_info_map : List (String × String)
device_info_map =
    ("SerialNumber", "serialNumber")
    ∷ ("RevisionCounter", "revisionCounter")
    ∷ ("Manufacturer", "manufacturer")
    ∷ ("Model", "model")
    ∷ ("DeviceManual", "deviceManual")
    ∷ ("DeviceRevision", "deviceRevision")
    ∷ ("SoftwareRevision", "softwareRevision")
    ∷ ("HardwareRevision", "hardwareRevision")
    ∷ ("DeviceClass", "deviceClass")
    ∷ ("ManufacturerUri", "manufacturerUri")
    ∷ ("ProductCode", "productCode")
    ∷ ("ProductInstanceUri", "productInstanceUri")
    ∷ ("AssetId", "assetId")
    ∷ ("ComponentName", "name")
    ∷ []

abbrev pub DeviceInfoList : Type 0
DeviceInfoList = List (String × InfoValue)

-- A value that the device info has: a text or a number.
pub data Field : Type 0 where
  text_field : String → Field
  number_field : ℤ → Field

module _ {ℓ} {N : Type ℓ} where
  -- The loop of `readDeviceInfoFromRootDevice`: a property that cannot be read is skipped.
  pub read_device_properties : ClientService N → List (String × N) → DeviceInfoList
  unfolding contains
  read_device_properties s [] = []
  read_device_properties s ((name, id) ∷ refs) =
      let rest = read_device_properties s refs in
      if not (contains name device_info_map) then rest else (elim (s.read_value id) [
        | denied ↦ rest
        | failed ↦ rest
        | replied v ↦ if not v.is_scalar then rest else (name, v) ∷ rest
      ])

  -- `readDeviceInfoFromRootDevice`; none is a client that is not there.
  unfoldable pub read_device_info_from_root_device : Option (ClientService N) → N → DeviceInfoList
  unfolding read_device_properties
  read_device_info_from_root_device none id = []
  read_device_info_from_root_device (some s) id = elim (s.node_exists id) [
    | replied true ↦ elim (s.browse_properties id) [
      | replied refs ↦ read_device_properties s refs
      | _ ↦ []
    ]
    | _ ↦ []
  ]
