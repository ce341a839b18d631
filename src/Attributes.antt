-- ===== src/Attributes.antt =====
-- The attribute reader: attribute_reader.h and attribute_reader.cpp of
-- shared/libraries/opcua/opcuaclient. Node ids are those of the OPC UA stack, known by their
-- equality test; values are any type; the read service is an argument.
pub mod Reading
mod Examples
use opc_ua_modules.Base.{
  ℕ, Bool, true, false, ◌&&◌, Option, none, some, List, [], ◌∷◌, ◌++◌, HasEq, ◌==◌, nat_eq, nat_beq,
  if◌then◌else◌, length,
}
use opc_ua_modules.Base.Dict.{lookup, put, contains}
use opc_ua_modules.Batches.{batches}

pub record Attribute {ℓ} (N : Type ℓ) : Type ℓ where
  pub node_id : N
  pub attribute_id : ℕ

-- `UA_DataValue`, with whether its status is good.
pub record ReadResult (V : Type 0) : Type 0 where
  pub is_good : Bool
  pub value : V

abbrev pub ResultMap {ℓ} : Type ℓ → Type 0 → Type ℓ
ResultMap N V = List (N × List (ℕ × V))

-- The read service: none is a bad service result.
abbrev pub ReadService {ℓ} : Type ℓ → Type 0 → Type ℓ
ReadService N V = List (Attribute N) → Option (List (ReadResult V))

pub record Reader {ℓ} (N : Type ℓ) (V : Type 0) : Type ℓ where
  pub attributes : List (Attribute N)
  pub result_map : ResultMap N V
  pub max_batch_size : ℕ

module _ {ℓ} {N : Type ℓ} ⦃e : HasEq N⦄ where
  unfoldable pub same_attribute : Attribute N → Attribute N → Bool
  same_attribute a b = a.node_id == b.node_id && nat_beq a.attribute_id b.attribute_id

  unfoldable pub has_attribute : Attribute N → List (Attribute N) → Bool
  unfolding same_attribute
  has_attribute a [] = false
  has_attribute a (b ∷ bs) = if same_attribute b a then true else has_attribute a bs

module _ {ℓ} {N : Type ℓ} {V : Type 0} ⦃e : HasEq N⦄ where
  -- `addAttribute`, on an ordered set.
  pub add_attribute : Attribute N → Reader N V → Reader N V
  unfolding has_attribute
  add_attribute a r =
      if has_attribute a r.attributes then r else record r { attributes = r.attributes ++ a ∷ [] }

  pub set_attributes : List (Attribute N) → Reader N V → Reader N V
  set_attributes attributes r = record r { attributes = attributes }

  pub clear_results : Reader N V → Reader N V
  clear_results r = record r { result_map = [] }

  pub clear_attributes : Reader N V → Reader N V
  clear_attributes r = record r { attributes = [] }

  -- `getValue`: none is the exception for a result that is not there.
  unfoldable pub get_value : Attribute N → ResultMap N V → Option V
  unfolding lookup
  get_value a m = elim (lookup a.node_id m) [
    | none ↦ none
    | some values ↦ lookup a.attribute_id values
  ]

  unfoldable pub has_any_value : N → ResultMap N V → Bool
  unfolding contains
  has_any_value id m = contains id m

  -- `resultMap[nodeId]`
  unfoldable pub values_of : N → ResultMap N V → List (ℕ × V)
  unfolding lookup
  values_of id m = elim (lookup id m) [ none ↦ [] | some values ↦ values ]

  -- One round of `addBatchToResultMap`.
  unfoldable pub add_result : Attribute N → ReadResult V → ResultMap N V → ResultMap N V
  unfolding contains put values_of
  add_result a r m =
      let m' = if contains a.node_id m then m else put a.node_id [] m in
      if r.is_good
      then put a.node_id (put a.attribute_id r.value (values_of a.node_id m')) m'
      else m'

  unfoldable pub add_batch_to_result_map :
      List (Attribute N) → List (ReadResult V) → ResultMap N V → ResultMap N V
  unfolding add_result
  add_batch_to_result_map (a ∷ as') (r ∷ rs) m = add_batch_to_result_map as' rs (add_result a r m)
  add_batch_to_result_map [] rs m = m
  add_batch_to_result_map (a ∷ as') [] m = m

  -- The result map, and whether the call returned; false is an exception.
  pub read_batch : ReadService N V → List (Attribute N) → ResultMap N V → ResultMap N V × Bool
  unfolding add_batch_to_result_map
  read_batch service as' m = elim (service as') [
    | none ↦ (m, false)
    | some results ↦
        if nat_beq (length results) (length as')
        then (add_batch_to_result_map as' results m, true)
        else (m, false)
  ]

  pub read_batches :
      ReadService N V → List (List (Attribute N)) → ResultMap N V → ResultMap N V × Bool
  unfolding read_batch
  read_batches service [] m = (m, true)
  read_batches service (b ∷ bs) m =
      let t = read_batch service b m in
      elim (t.1) [ false ↦ (t.0, false) | true ↦ read_batches service bs (t.0) ]

  pub read : ReadService N V → Reader N V → Reader N V × Bool
  unfolding read_batches
  read service r =
      let t = read_batches service (batches r.max_batch_size r.attributes) r.result_map in
      (record r { result_map = t.0 }, t.1)
