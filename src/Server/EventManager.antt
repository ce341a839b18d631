-- ===== src/Server/EventManager.antt =====
-- The callbacks for nodes of the server: server_event_manager.cpp of
-- shared/libraries/opcua/opcuaserver/src. A callback is known by a number; `none` is no callback.
pub mod Registered
use opc_ua_modules.Base.{ℕ, Bool, true, false, Option, none, some, List, [], ◌∷◌, ◌++◌, HasEq}
use opc_ua_modules.Base.Dict.{lookup, insert, erase}

-- The calls that were made: a callback with the node and the text.
pub record EventManager {ℓ} (N : Type ℓ) : Type ℓ where
  pub create_optional_node : Option ℕ
  pub display_names : List (N × ℕ)
  pub descriptions : List (N × ℕ)
  pub calls : List (ℕ × N)

module _ {ℓ} {N : Type ℓ} where
  unfoldable pub on_create_optional_node : Option ℕ → EventManager N → EventManager N
  on_create_optional_node callback m = record m { create_optional_node = callback }

  -- The answer of the callback, and whether a node is created where there is none.
  unfoldable pub trigger_create_optional_node : (ℕ → N → Bool) → N → EventManager N → Bool
  trigger_create_optional_node answers node m = elim m.create_optional_node [
    | none ↦ false
    | some callback ↦ answers callback node
  ]

module _ {ℓ} {N : Type ℓ} ⦃e : HasEq N⦄ where
  unfoldable pub on_display_name_changed : N → ℕ → EventManager N → EventManager N
  on_display_name_changed node callback m = record m {
    display_names = insert node callback m.display_names;
  }

  unfoldable pub on_description_changed : N → ℕ → EventManager N → EventManager N
  on_description_changed node callback m = record m {
    descriptions = insert node callback m.descriptions;
  }

  unfoldable pub remove_on_display_name_changed : N → EventManager N → EventManager N
  remove_on_display_name_changed node m = record m { display_names = erase node m.display_names }

  unfoldable pub remove_on_description_changed : N → EventManager N → EventManager N
  remove_on_description_changed node m = record m { descriptions = erase node m.descriptions }

  unfoldable pub trigger_display_name_changed : N → EventManager N → EventManager N
  trigger_display_name_changed node m = elim (lookup node m.display_names) [
    | none ↦ m
    | some callback ↦ record m { calls = m.calls ++ (callback, node) ∷ [] }
  ]

  unfoldable pub trigger_description_changed : N → EventManager N → EventManager N
  trigger_description_changed node m = elim (lookup node m.descriptions) [
    | none ↦ m
    | some callback ↦ record m { calls = m.calls ++ (callback, node) ∷ [] }
  ]
