-- ===== src/GenericDevice/Naming.antt =====
-- The local ids of the function blocks.
use opc_ua_modules.Base.{
  ℕ, ◌≡◌, refl, false, Option, String, ◌==◌, string_eq, or_else, Bool-cases, Option-cases, inl, inr,
  ◌⊎◌, if_both, if_true,
}
use opc_ua_modules.Base.Dict.{lookup, contains}
use opc_ua_modules.GenericDevice.Blocks.{
  Blocks, Added, added, nothing, not_found, monitored_item_name, build_mi_local_id, add_block,
  local_id_of, on_add_function_block,
}

build_mi_local_id-free :
    (user : String) (b : Blocks)
    → (build_mi_local_id user b ≡ "")
      ⊎ (contains (build_mi_local_id user b) b.function_blocks ≡ false)
unfolding build_mi_local_id
build_mi_local_id-free user b = elim (Bool-cases (user == "")) [
  | inl empty ↦ inl (if_true (user == "") "" _ empty)
  | inr named ↦ elim (Bool-cases (contains user b.function_blocks)) [
    | inl taken ↦ inl (rw named (if_true (contains user b.function_blocks) "" user taken))
    | inr free ↦ inr (rw named (rw free free))
  ]
]

local_id_of-free :
    (user : Option String) (made : String) (b : Blocks)
    → contains made b.function_blocks ≡ false
    → contains (local_id_of user made b) b.function_blocks ≡ false
unfolding local_id_of
local_id_of-free user made b h = elim (build_mi_local_id-free (or_else user "") b) [
  | inl empty ↦ rw empty h
  | inr free ↦
      let given = build_mi_local_id (or_else user "") b in
      if_both (λ (x : String). contains x b.function_blocks ≡ false) (given == "") made given h free
]

-- What each end of `onAddFunctionBlock` says of the device before and after.
pub AddsTo : Added → ℕ → ℕ → Blocks → Blocks → Type 0
AddsTo (added id) item now b c =
    (contains id b.function_blocks ≡ false) × (c ≡ add_block id item now b)
AddsTo nothing item now b c = (c.function_blocks ≡ b.function_blocks) × (c.sampler ≡ b.sampler)
AddsTo not_found item now b c = c ≡ b

-- Where `onAddFunctionBlock` returns a block, and the id that a block makes for itself is not in the
-- folder, the block's local id is not in the folder before; the block has the device's defaults and
-- is registered with the scheduler, and nothing else of the device changes but its status. Where it
-- returns none or throws, blocks and scheduler are unchanged.
pub on_add_function_block_lem :
    (type_id : String) (user : Option String) (made : String) (item now : ℕ) (b : Blocks)
    → contains made b.function_blocks ≡ false
    → let (result, c) = on_add_function_block type_id user made item now b in
      AddsTo result item now b c
unfolding on_add_function_block AddsTo
on_add_function_block_lem type_id user made item now b h =
    elim (Option-cases (lookup type_id b.types)) [
      | inl none_there ↦ rw (none_there, on_add_function_block) refl
      | inr (name, found) ↦
          rw (found, on_add_function_block)
            (elim (Bool-cases (name == monitored_item_name)) [
              | inl monitored ↦ rw monitored (local_id_of-free user made b h, refl)
              | inr other ↦ rw other (refl, refl)
            ])
    ]
