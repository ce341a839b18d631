-- ===== src/ClientModule/Examples.antt =====
-- Runs of the generic client's module.
use text.Mathlib.Text.{starts_with}
use opc_ua_modules.Base.{
  ℕ, zero, suc, ◌≡◌, ◌↔◌, refl, ◌⊎◌, Bool, true, false, none, some, List, [], ◌∷◌, String,
  string_eq, nat_eq, ◌==◌,
}
use opc_ua_modules.Base.Int.{pos}
use opc_ua_modules.Base.Dict.{lookup}
use opc_ua_modules.MonitoredItem.State.{replied, failed}
use opc_ua_modules.ClientModule.Service.{InfoValue, ClientService, DeviceInfoList, text_field}
use opc_ua_modules.ClientModule.DeviceSet.{
  is_subtype_of_any, max_type_hierarchy_depth, read_device_info, read_root_node_id_from_config,
}
use opc_ua_modules.ClientModule.Hierarchy.{is_subtype_of_any_lem, IsReached}
use opc_ua_modules.ClientModule.LocalId.{
  ApplicationDescription, Parent, is_taken, has_slash, build_device_local_id,
  build_device_local_id_lem, offered, first_free,
}
use opc_ua_modules.ClientModule.Capability.{
  AddressInfo, Capability, reachable, protocol, default_port,
}
use opc_ua_modules.ClientModule.Populate.{device_prefix, populate_device_info}
use opc_ua_modules.ClientModule.Connection.{
  Surroundings, DeviceConfig, Device, returned, build_device_name, form_connection_string,
  build_opcua_url, create_device,
}
use opc_ua_modules.ClientModule.Creation.{create_device_lem}

-- Types are numbered; the parent of a type is the one below it, and the base is type 3.
abbrev below : ℕ → List ℕ
below zero = []
below (suc n) = n ∷ []

abbrev hierarchy : ClientService ℕ
hierarchy = record {
  node_exists = λ n. replied true;
  browse_properties = λ n. replied [];
  read_value = λ n. failed;
  namespace_array = replied none;
  browse_devices = λ n. replied [];
  supertypes = λ n. replied (below n);
}

is_subtype_of_any_lem_example :
    (r : Bool) × (is_subtype_of_any 0 hierarchy 5 (3 ∷ []) ≡ replied r)
    × ((r ≡ true) ↔ IsReached 0 hierarchy below max_type_hierarchy_depth 5 (3 ∷ []))
is_subtype_of_any_lem_example = is_subtype_of_any_lem 0 hierarchy below 5 (3 ∷ []) (λ a. refl)

abbrev text_value : String → InfoValue
text_value s = record {
  is_scalar = true;
  is_string = true;
  is_integer = false;
  text = s;
  number = pos 0;
}

abbrev serial_only : DeviceInfoList
serial_only = ("SerialNumber", text_value "a/1") ∷ []

abbrev a_server : ApplicationDescription
a_server = record { uri = "urn:server"; name = "Server"; product_uri = "urn:product" }

abbrev user_id : String
user_id = "dev"

-- A folder that has an item "dev".
abbrev folder : Parent
folder = some (λ id. id == "dev")

build_device_local_id_lem_example :
    let id = build_device_local_id folder user_id serial_only a_server in
    (id ≡ first_free (is_taken folder) (offered user_id serial_only a_server))
    × ((id ≡ "") ⊎ (is_taken folder id ≡ false))
    × ((id ≡ user_id) ⊎ (has_slash id ≡ false))
build_device_local_id_lem_example = build_device_local_id_lem folder user_id serial_only a_server

abbrev info_at : String → AddressInfo
info_at a = record {
  address = a;
  host_type = "IPv4";
  reachability = reachable;
  connection_string = "";
}

abbrev capability_of : List String → List AddressInfo → Capability
capability_of l i = record {
  protocol_id = protocol;
  connection_type = "TCP/IP";
  prefix = "daq";
  port = none;
  path = none;
  addresses = l;
  address_infos = i;
  connection_string = "";
}

abbrev source_capability : Capability
source_capability = capability_of ("a" ∷ "b" ∷ []) (info_at "a" ∷ info_at "b" ∷ [])

abbrev target_capability : Capability
target_capability = capability_of ("a" ∷ []) []

abbrev plain_url : String
plain_url = "daq.opcua.generic://host"

abbrev surroundings : Surroundings ℕ
surroundings = record {
  match_ipv6 = λ u. none;
  match_ipv4 = λ u. some record { prefix = device_prefix; host = "host"; port = none; path = none };
  parse_number = λ t. none;
  number_text = λ n. "4840";
  has_context = true;
  connect = λ url user password. replied hierarchy;
  describe = replied a_server;
  new_info = record { fields = []; connection = target_capability };
}

abbrev config : DeviceConfig ℕ
config = record {
  local_id = "mine";
  username = "";
  password = "";
  node = record {
    device_node_id_type = pos 0;
    device_node_id_string = "";
    device_node_id_numeric = pos 0;
    device_namespace_index = pos 0;
    string_node_id = λ ns s. 0;
    numeric_node_id = λ ns n. n;
  };
}

abbrev read_properties_of_server : DeviceInfoList
read_properties_of_server =
    read_device_info 0 (λ ns n. n) (some hierarchy) (read_root_node_id_from_config 0 config.node)

-- The device that these surroundings make.
abbrev the_device : Device ℕ
the_device = record {
  client = hierarchy;
  local_id = build_device_local_id none "mine" read_properties_of_server a_server;
  name = build_device_name a_server;
  connection = record { host = "host"; port = default_port; host_type = "IPv4"; path = "" };
  info =
      populate_device_info plain_url
        record { host = "host"; port = default_port; host_type = "IPv4"; path = "" } ""
        "urn:product" read_properties_of_server surroundings.new_info;
}

the_device_is_made :
    create_device 0 (λ ns n. n) surroundings (some plain_url) none config ≡ returned the_device
unfolding create_device
the_device_is_made = refl

create_device_lem_example :
    (starts_with plain_url device_prefix ≡ true)
    × (surroundings.has_context ≡ true)
    × (form_connection_string surroundings plain_url ≡ returned the_device.connection)
    × (surroundings.connect (build_opcua_url surroundings the_device.connection) "" ""
        ≡ replied the_device.client)
    × ((the_device.local_id ≡ "") ⊎ (is_taken none the_device.local_id ≡ false))
    × (lookup "connectionString" the_device.info.fields ≡ some (text_field plain_url))
create_device_lem_example =
    create_device_lem 0 (λ ns n. n) surroundings plain_url none config the_device_is_made
