-- ===== src/NodeIds/Identifiers.antt =====
-- A node id from the parts that its accessors give.
use opc_ua_modules.Base.{ℕ, ◌≡◌, refl, Option, none, some, String}
use opc_ua_modules.NodeIds.{
  Identifier, numeric, text, guid, byte_string, NodeId, Texts, get_identifier_type, get_identifier,
  instantiate_node,
}

infixl 5 ◌then_make◌
abbrev pub ◌then_make◌ :
    {G : Type 0} → Option String → (String → Option (NodeId G)) → Option (NodeId G)
none then_make make = none
some s then_make make = make s

-- The stack reads the text of a numeric identifier.
unfoldable pub IsReadable : {G : Type 0} → Texts G → Identifier G → Type 0
IsReadable t (numeric n) = t.read_number (t.number_text n) ≡ some n
IsReadable t (text s) = Unit
IsReadable t (guid g) = Unit
IsReadable t (byte_string g) = Unit

-- Which node ids can be made again: those whose identifier is a number or a text.
unfoldable pub made_again : {G : Type 0} → NodeId G → Identifier G → Option (NodeId G)
made_again id (numeric n) = some id
made_again id (text s) = some id
made_again id (guid g) = none
made_again id (byte_string g) = none

identifier_again :
    {G : Type 0} (t : Texts G) (uninitialized ns : ℕ) (i : Identifier G)
    → IsReadable t i
    → (get_identifier t i then_make λ s.
        instantiate_node t uninitialized ns s (get_identifier_type i))
      ≡ made_again (record { namespace_index = ns; identifier = i }) i
unfolding get_identifier instantiate_node get_identifier_type made_again IsReadable
identifier_again t uninitialized ns (numeric n) reads = rw reads refl
identifier_again t uninitialized ns (text s) reads = refl
identifier_again t uninitialized ns (guid g) reads = refl
identifier_again t uninitialized ns (byte_string g) reads = refl

-- A node id is made again from its namespace, the text of its identifier and the type of it, if the
-- identifier is a number, whose text the stack reads, or a text. A guid has a text, but no node id
-- is made from it: this throws, as for an opaque identifier.
pub instantiate_node-get_identifier :
    {G : Type 0} (t : Texts G) (uninitialized : ℕ) (id : NodeId G)
    → IsReadable t id.identifier
    → (get_identifier t id.identifier then_make λ s.
        instantiate_node t uninitialized id.namespace_index s (get_identifier_type id.identifier))
      ≡ made_again id id.identifier
instantiate_node-get_identifier t uninitialized id reads =
    identifier_again t uninitialized id.namespace_index id.identifier reads
