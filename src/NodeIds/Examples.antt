-- ===== src/NodeIds/Examples.antt =====
-- Node ids whose numbers have texts of one kind.
use opc_ua_modules.Base.{ℕ, ◌≡◌, refl, some}
use opc_ua_modules.NodeIds.{
  numeric, text, NodeId, Texts, get_identifier_type, get_identifier, instantiate_node,
  generate_child_id,
}
use opc_ua_modules.NodeIds.Identifiers.{
  IsReadable, made_again, ◌then_make◌, instantiate_node-get_identifier,
}

-- The number 7 is the one whose text is read.
abbrev sevens : Texts ℕ
sevens = record {
  number_text = λ n. "7";
  read_number = λ s. some 7;
  guid_text = λ g. "00000000-0000";
}

seven_again :
    (get_identifier sevens (numeric 7) then_make λ s.
    instantiate_node sevens 0 2 s (get_identifier_type {G = ℕ} (numeric 7)))
    ≡ made_again (record { namespace_index = 2; identifier = numeric 7 }) (numeric 7)
unfolding IsReadable
seven_again =
    instantiate_node-get_identifier sevens 0
      (record { namespace_index = 2; identifier = numeric 7 }) refl

abbrev parent : NodeId ℕ
parent = record { namespace_index = 3; identifier = text "Dev" }

abbrev fresh : NodeId ℕ
fresh = record { namespace_index = 1; identifier = numeric 99 }

-- A child of a node with a text is named after its source.
child_id :
    generate_child_id
      (λ n. "Temperature")
      (record { namespace_index = 0; identifier = numeric 63 })
      parent
      fresh
    ≡ record { namespace_index = 3; identifier = text "Dev/Temperature" }
unfolding generate_child_id
child_id = refl
