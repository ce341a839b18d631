-- ===== src/ClientModule/Populate.antt =====
-- The info of a new device: `populateDeviceInfo`.
use opc_ua_modules.Base.{
  ℕ, ◌≡◌, refl, ◌∙◌, arith, Bool, true, false, ◌||◌, some, List, [], ◌∷◌, ◌++◌, All, String, ◌==◌,
  string_eq,
}
use opc_ua_modules.Base.Dict.{lookup, put, lookup-put}
use opc_ua_modules.ClientModule.Service.{
  InfoValue, DeviceInfoList, Field, text_field, device_info_map,
}
use opc_ua_modules.ClientModule.Capability.{Capability, AddressInfo, reachable, protocol}
use opc_ua_modules.ClientModule.Info.{
  populate_device_info_from_root_device, populate_device_info_from_root_device_lem, IsElsewhere,
}

-- `DaqOpcUaGenericDevicePrefix`, and with what follows it in a URL.
abbrev pub prefix_name : String
prefix_name = "daq.opcua.generic"

abbrev pub device_prefix : String
device_prefix = "daq.opcua.generic://"

pub record ParsedConnectionInfo : Type 0 where
  pub host : String
  pub port : ℕ
  pub host_type : String
  pub path : String

-- The properties of a device info, and its capability for the configuration's connection.
pub record DeviceInfo : Type 0 where
  pub fields : List (String × Field)
  pub connection : Capability

abbrev pub connected_capability : String → ParsedConnectionInfo → Capability → Capability
connected_capability url i c =
    let info : AddressInfo = record {
      address = i.host;
      host_type = i.host_type;
      reachability = reachable;
      connection_string = url;
    } in
    record c {
      protocol_id = protocol;
      connection_type = "TCP/IP";
      addresses = c.addresses ++ i.host ∷ [];
      port = some i.port;
      prefix = prefix_name;
      connection_string = url;
      address_infos = c.address_infos ++ info ∷ [];
    }

-- The properties that are written before those of the server's device.
abbrev connection_fields :
    String → String → String → String → List (String × Field) → List (String × Field)
connection_fields url path username product_uri fields =
    put "productInstanceUri" (text_field product_uri) (
      put "userName" (text_field username)
        (put "path" (text_field path) (put "connectionString" (text_field url) fields)))

-- `populateDeviceInfo`
unfoldable pub populate_device_info :
    String → ParsedConnectionInfo → String → String → DeviceInfoList → DeviceInfo → DeviceInfo
unfolding put
populate_device_info url i username product_uri l d = record {
  fields =
      populate_device_info_from_root_device l
        (connection_fields url i.path username product_uri d.fields);
  connection = connected_capability url i d.connection;
}

-- The properties that the server's device can set.
abbrev pub is_value : String → List (String × String) → Bool
is_value p [] = false
is_value p ((n, v) ∷ m) = v == p || is_value p m

lookup-is_value :
    (k p : String) (m : List (String × String)) → lookup k m ≡ some p → is_value p m ≡ true
unfolding lookup
lookup-is_value k p [] h = absurd (cc)
lookup-is_value k p ((n, v) ∷ m) h = ground (arith, string_eq.same_iff v p, lookup-is_value k p m)

is_value-All :
    (p : String) (l : DeviceInfoList)
    → is_value p device_info_map ≡ false
    → All (λ (x : String × InfoValue). IsElsewhere p x.0) l
is_value-All p [] h = tt
is_value-All p ((n, v) ∷ l) h = (
  λ e.
      let t : is_value p device_info_map ≡ true = lookup-is_value n p device_info_map e in
      absurd (cc),
  is_value-All p l h,
)

-- The four values that are written can be read.
module _ (url path username product_uri : String) (fields : List (String × Field)) where
  with_url : List (String × Field)
  with_url = put "connectionString" (text_field url) fields

  with_path : List (String × Field)
  unfolding with_url
  with_path = put "path" (text_field path) with_url

  with_user : List (String × Field)
  unfolding with_path
  with_user = put "userName" (text_field username) with_path

  connection_fields-url :
      lookup "connectionString" (connection_fields url path username product_uri fields)
      ≡ some (text_field url)
  unfolding with_user with_path with_url
  connection_fields-url =
      lookup-put "productInstanceUri" "connectionString" (text_field product_uri) with_user
      ∙ lookup-put "userName" "connectionString" (text_field username) with_path
      ∙ lookup-put "path" "connectionString" (text_field path) with_url
      ∙ lookup-put "connectionString" "connectionString" (text_field url) fields

  connection_fields-path :
      lookup "path" (connection_fields url path username product_uri fields)
      ≡ some (text_field path)
  unfolding with_user with_path with_url
  connection_fields-path =
      lookup-put "productInstanceUri" "path" (text_field product_uri) with_user
      ∙ lookup-put "userName" "path" (text_field username) with_path
      ∙ lookup-put "path" "path" (text_field path) with_url

  connection_fields-user :
      lookup "userName" (connection_fields url path username product_uri fields)
      ≡ some (text_field username)
  unfolding with_user with_path with_url
  connection_fields-user =
      lookup-put "productInstanceUri" "userName" (text_field product_uri) with_user
      ∙ lookup-put "userName" "userName" (text_field username) with_path

-- Whatever the server's device answers, the new device's info shows the connection string, the user
-- and the path of this connection.
pub populate_device_info_lem :
    (url : String) (i : ParsedConnectionInfo) (username product_uri : String) (l : DeviceInfoList)
    (d : DeviceInfo)
    → let fields = (populate_device_info url i username product_uri l d).fields in
      (lookup "connectionString" fields ≡ some (text_field url))
      × (lookup "userName" fields ≡ some (text_field username))
      × (lookup "path" fields ≡ some (text_field i.path))
unfolding populate_device_info
populate_device_info_lem url i username product_uri l d = (
  kept "connectionString" refl ∙ connection_fields-url url i.path username product_uri d.fields,
  kept "userName" refl ∙ connection_fields-user url i.path username product_uri d.fields,
  kept "path" refl ∙ connection_fields-path url i.path username product_uri d.fields,
)
  where
    kept :
        (p : String)
        → is_value p device_info_map ≡ false
        → let start = connection_fields url i.path username product_uri d.fields in
          lookup p (populate_device_info_from_root_device l start) ≡ lookup p start
    kept p h =
        (populate_device_info_from_root_device_lem p l
          (connection_fields url i.path username product_uri d.fields) (is_value-All p l h)).1
