-- ===== src/ClientModule/Connection.antt =====
-- Connecting to a device: `acceptsConnectionParameters`, `formConnectionString`, `buildOpcuaUrl`,
-- `initOpcuaClient`, `readApplicationDescription` and `onCreateDevice`.
use Prim.Native.String.{◌++◌ as str_append}
use text.Mathlib.Text.{starts_with}
use opc_ua_modules.Base.{
  ℕ, ◌≡◌, refl, Bool, true, false, Option, none, some, String, HasEq, ◌==◌, string_eq,
  if◌then◌else◌, or_else,
}
use opc_ua_modules.MonitoredItem.State.{Reply, replied, denied, failed}
use opc_ua_modules.ClientModule.Service.{ClientService}
use opc_ua_modules.ClientModule.DeviceSet.{
  NodeConfig, read_root_node_id_from_config, read_device_info,
}
use opc_ua_modules.ClientModule.LocalId.{ApplicationDescription, Parent, build_device_local_id}
use opc_ua_modules.ClientModule.Capability.{default_port}
use opc_ua_modules.ClientModule.Populate.{
  device_prefix, ParsedConnectionInfo, DeviceInfo, populate_device_info,
}

-- The groups of a match of one of the two patterns for an address.
pub record UrlMatch : Type 0 where
  pub prefix : String
  pub host : String
  pub port : Option String
  pub path : Option String

pub data CreateError : Type 0 where
  argument_null invalid_parameter authentication_failed not_found port_out_of_range : CreateError

pub data Attempt {ℓ} (A : Type ℓ) : Type ℓ where
  raised : CreateError → Attempt A
  returned : A → Attempt A

infixl 5 ◌>>=◌
abbrev pub ◌>>=◌ {ℓ κ} : {Q : Type ℓ} {R : Type κ} → Attempt Q → (Q → Attempt R) → Attempt R
raised why >>= next = raised why
returned q >>= next = next q

-- What the module is given: the matches of the two regular expressions, `std::stoi`, the text of a
-- number, whether there is a context, how a connection to a URL ends, and the description that the
-- server gives. An OPC UA exception is `denied` with a status for denied access or a bad identity
-- token. `new_info` is the info of a device that openDAQ has just made.
pub record Surroundings {ℓ} (N : Type ℓ) : Type ℓ where
  pub match_ipv6 : String → Option UrlMatch
  pub match_ipv4 : String → Option UrlMatch
  pub parse_number : String → Option ℕ
  pub number_text : ℕ → String
  pub has_context : Bool
  pub connect : String → String → String → Reply (ClientService N)
  pub describe : Reply ApplicationDescription
  pub new_info : DeviceInfo

-- The configuration that `onCreateDevice` reads.
pub record DeviceConfig {ℓ} (N : Type ℓ) : Type ℓ where
  pub local_id : String
  pub username : String
  pub password : String
  pub node : NodeConfig N

pub record Device {ℓ} (N : Type ℓ) : Type ℓ where
  pub client : ClientService N
  pub local_id : String
  pub name : String
  pub connection : ParsedConnectionInfo
  pub info : DeviceInfo

-- The message of an raised; empty if there is none.
unfoldable pub accepts_connection_parameters : String → String
accepts_connection_parameters url =
    if starts_with url device_prefix
    then ""
    else str_append "Connection string must start with " device_prefix

pub build_device_name : ApplicationDescription → String
build_device_name desc = if desc.name == "" then "GenericOPCUAClientPseudoDevice" else desc.name

-- An `OpcUaException` as the exception of the module.
abbrev pub of_reply {ℓ} : {A : Type ℓ} → Reply A → Attempt A
of_reply (replied a) = returned a
of_reply denied = raised authentication_failed
of_reply failed = raised not_found

abbrev pub check : Bool → CreateError → Attempt (Unit {0})
check true e = returned tt
check false e = raised e

pub >>=-eq-returned {ℓ κ} :
    {Q : Type ℓ} {R : Type κ} (first : Attempt Q) (next : Q → Attempt R) {r : R}
    → (first >>= next) ≡ returned r
    → (q : Q) × (first ≡ returned q) × (next q ≡ returned r)
>>=-eq-returned (returned q) next eq = (q, refl, eq)
>>=-eq-returned (raised why) next eq = absurd (cc)

module _ {ℓ} {N : Type ℓ} where
  abbrev pub port_of : Surroundings N → Option String → Attempt ℕ
  port_of s none = returned default_port
  port_of s (some text) = elim (s.parse_number text) [
    | none ↦ raised port_out_of_range
    | some n ↦ returned n
  ]

  unfoldable pub check_match : Surroundings N → String → UrlMatch → Attempt ParsedConnectionInfo
  check_match s host_type m = port_of s m.port >>= λ port.
      if m.prefix == device_prefix
      then returned
          (record { host = m.host; port = port; host_type = host_type; path = or_else m.path "" })
      else raised invalid_parameter

  unfoldable pub form_connection_string : Surroundings N → String → Attempt ParsedConnectionInfo
  unfolding check_match
  form_connection_string s url = elim (s.match_ipv6 url) [
    | some m ↦ check_match s "IPv6" m
    | none ↦ elim (s.match_ipv4 url) [
      | some m ↦ check_match s "IPv4" m
      | none ↦ raised invalid_parameter
    ]
  ]

  pub build_opcua_url : Surroundings N → ParsedConnectionInfo → String
  build_opcua_url s i =
      str_append
        (str_append (str_append (str_append "opc.tcp://" i.host) ":") (s.number_text i.port)) i.path

  -- `onCreateDevice`; none is a string that is not assigned.
  unfoldable pub create_device :
      ⦃e : HasEq N⦄
      → N
      → (ℕ → ℕ → N)
      → Surroundings N
      → Option String
      → Parent
      → DeviceConfig N
      → Attempt (Device N)
  unfolding accepts_connection_parameters form_connection_string build_opcua_url build_device_name
      populate_device_info
  create_device null di_id s none parent c = raised argument_null
  create_device null di_id s (some url) parent c =
      check (accepts_connection_parameters url == "") invalid_parameter >>= λ u.
      check s.has_context invalid_parameter >>= λ u. form_connection_string s url >>= λ info.
      of_reply (s.connect (build_opcua_url s info) c.username c.password) >>= λ client.
      of_reply s.describe >>= λ desc.
      let properties =
        read_device_info null di_id (some client) (read_root_node_id_from_config null c.node) in
      returned (record {
        client = client;
        local_id = build_device_local_id parent c.local_id properties desc;
        name = build_device_name desc;
        connection = info;
        info = populate_device_info url info c.username desc.product_uri properties s.new_info;
      })
