-- ===== src/Attributes/Examples.antt =====
-- Two attributes of a node, one of them answered with a bad status.
use opc_ua_modules.Base.{ℕ, ◌≡◌, refl, true, some, [], ◌∷◌, nat_eq, nat_beq, map}
use opc_ua_modules.Attributes.{
  Attribute, ReadResult, ReadService, Reader, has_attribute, get_value, read,
}
use opc_ua_modules.Attributes.Reading.{get_value-read}

abbrev attribute : ℕ → Attribute ℕ
attribute k = record { node_id = 1; attribute_id = k }

-- Attribute 5 of each node is the node's number; there is no other.
abbrev answer : Attribute ℕ → ReadResult ℕ
answer a = record { is_good = nat_beq a.attribute_id 5; value = a.node_id }

abbrev service : ReadService ℕ ℕ
service as' = some (map answer as')

abbrev reader : Reader ℕ ℕ
reader = record { attributes = attribute 5 ∷ attribute 6 ∷ []; result_map = []; max_batch_size = 1 }

abbrev failing : Reader ℕ ℕ
failing = record reader { attributes = attribute 6 ∷ [] }

get_value-read_example :
    ((read service reader).1 ≡ true)
    × (get_value (attribute 5) (read service reader).0.result_map ≡ some 1)
unfolding has_attribute
get_value-read_example = get_value-read service answer reader (attribute 5) (λ as'. refl)
