-- ===== src/NodeIds.antt =====
-- Node ids and their texts: opcuanodeid.cpp of shared/libraries/opcua/opcuashared/src, and the ids
-- that the server gives to children, `generateChildId` in opcuaserver.cpp of
-- shared/libraries/opcua/opcuaserver/src.
pub mod Identifiers
mod Examples
use Prim.Native.String.{◌++◌ as str_append}
use opc_ua_modules.Base.{ℕ, Bool, true, false, Option, none, some, String, if◌then◌else◌, nat_beq}

-- A guid and an opaque id are known by the stack's values.
pub data Identifier (G : Type 0) : Type 0 where
  numeric : ℕ → Identifier G
  text : String → Identifier G
  guid byte_string : G → Identifier G

pub record NodeId (G : Type 0) : Type 0 where
  pub namespace_index : ℕ
  pub identifier : Identifier G

pub data IdentifierType : Type 0 where
  numeric_type string_type guid_type undefined_type : IdentifierType

-- `std::to_string`, `UA_readNumber`, which leaves the number as it was where the text is none, and
-- `GuidToString`.
pub record Texts (G : Type 0) : Type 0 where
  pub number_text : ℕ → String
  pub read_number : String → Option ℕ
  pub guid_text : G → String

module _ {G : Type 0} where
  unfoldable pub get_identifier_type : Identifier G → IdentifierType
  get_identifier_type (numeric n) = numeric_type
  get_identifier_type (text s) = string_type
  get_identifier_type (guid g) = guid_type
  get_identifier_type (byte_string g) = undefined_type

  -- none is an exception.
  unfoldable pub get_identifier : Texts G → Identifier G → Option String
  get_identifier t (numeric n) = some (t.number_text n)
  get_identifier t (text s) = some s
  get_identifier t (guid g) = some (t.guid_text g)
  get_identifier t (byte_string g) = none

  -- `instantiateNode`; `uninitialized` is what the variable for the number holds before.
  unfoldable pub instantiate_node : Texts G → ℕ → ℕ → String → IdentifierType → Option (NodeId G)
  instantiate_node t uninitialized ns universal numeric_type = some (record {
    namespace_index = ns;
    identifier = elim (t.read_number universal) [
      | some n ↦ numeric n
      | none ↦ numeric uninitialized
    ];
  })
  instantiate_node t uninitialized ns universal string_type =
      some (record { namespace_index = ns; identifier = text universal })
  instantiate_node t uninitialized ns universal guid_type = none
  instantiate_node t uninitialized ns universal undefined_type = none

  unfoldable pub node_id_text : Texts G → NodeId G → Option String
  unfolding get_identifier
  node_id_text t id = elim (get_identifier t id.identifier) [
    | none ↦ none
    | some s ↦ some (
        str_append "("
          (str_append (t.number_text id.namespace_index) (str_append ", " (str_append s ")"))))
  ]

  -- The name of the source in the child's id: `browse_name` is what the stack reads of a numeric one.
  unfoldable pub source_name : (ℕ → String) → Identifier G → Option String
  source_name browse_name (numeric n) = some (browse_name n)
  source_name browse_name (text s) = some s
  source_name browse_name (guid g) = none
  source_name browse_name (byte_string g) = none

  -- The status is always good. `given` is the id that the stack has chosen.
  unfoldable pub generate_child_id : (ℕ → String) → NodeId G → NodeId G → NodeId G → NodeId G
  unfolding source_name
  generate_child_id browse_name source parent given = elim parent.identifier [
    | text p ↦ elim (source_name browse_name source.identifier) [
      | some name ↦ record {
        namespace_index = parent.namespace_index;
        identifier = text (str_append p (str_append "/" name));
      }
      | none ↦ given
    ]
    | _ ↦ given
  ]
