-- ===== src/GenericDevice/Blocks.antt =====
-- The function blocks of the device: `readProperties`, `buildMILocalId`, `generateLocalId` and
-- `onAddFunctionBlock`. Function blocks are known by the numbers that the scheduler has.
use Prim.Native.String.{◌++◌ as str_append}
use opc_ua_modules.Base.{
  ℕ, ◌+◌, Option, none, some, String, ◌==◌, string_eq, List, [], ◌∷◌, ◌++◌, if◌then◌else◌, or_else,
}
use opc_ua_modules.Base.Int.{ℤ}
use opc_ua_modules.Base.Dict.{lookup, contains}
use opc_ua_modules.MonitoredItem.State.{
  DomainSource, ComponentStatus, component_ok, component_error,
}
use opc_ua_modules.MonitoredItem.Configuration.{domain_source_of, as_unsigned}
use opc_ua_modules.Scheduler.{Scheduler, register_item}

-- What a new function block is made with.
pub record NewBlock : Type 0 where
  pub local_id : String
  pub domain_source : DomainSource
  pub sampling_interval_ms : ℕ

-- `function_blocks` is the folder "FB", each block under its local id; `types` is the types that are
-- available, with their names. The scheduler has the parts that an item is registered in.
pub record Blocks : Type 0 where
  pub types : List (String × String)
  pub function_blocks : List (String × NewBlock)
  pub default_domain_source : DomainSource
  pub default_sampling_interval_ms : ℕ
  pub sampler : Scheduler
  pub component_status : ComponentStatus

abbrev pub monitored_item_name : String
monitored_item_name = "MonitoredItem"

-- The properties, whose range the interval has by its declaration.
unfoldable pub read_default_properties : ℤ → ℤ → Blocks → Blocks
unfolding domain_source_of as_unsigned
read_default_properties mode interval b = record b {
  default_domain_source = domain_source_of mode;
  default_sampling_interval_ms = as_unsigned 32 interval;
}

-- The counter, and the text of a number.
unfoldable pub generate_local_id : (ℕ → String) → ℕ → String × ℕ
generate_local_id number_text index =
    (str_append "GenericOPCUAClientPseudoDevice" (number_text index), index + 1)

unfoldable pub build_mi_local_id : String → Blocks → String
unfolding contains
build_mi_local_id user_provided b =
    if user_provided == ""
    then ""
    else if contains user_provided b.function_blocks
    then ""
    else user_provided

-- How `onAddFunctionBlock` ends: with a block, without one, or with a NotFoundException.
pub data Added : Type 0 where
  added : String → Added
  nothing not_found : Added

abbrev unavailable : String → ComponentStatus
unavailable type_id = component_error (str_append "Function block type is not available: " type_id)

-- The block is the item `item`, which its owner `item` keeps alive, and `now` is the time.
unfoldable pub add_block : String → ℕ → ℕ → Blocks → Blocks
add_block id item now b =
    let block : NewBlock = record {
      local_id = id;
      domain_source = b.default_domain_source;
      sampling_interval_ms = b.default_sampling_interval_ms;
    } in
    record b {
      function_blocks = b.function_blocks ++ (id, block) ∷ [];
      sampler = register_item (some item) (some item) now b.sampler;
      component_status = component_ok;
    }

-- The constructor of the block makes a local id where it is given none: `made`.
unfoldable pub local_id_of : Option String → String → Blocks → String
unfolding build_mi_local_id
local_id_of user_id made b =
    let given = build_mi_local_id (or_else user_id "") b in if given == "" then made else given

unfoldable pub on_add_function_block :
    String → Option String → String → ℕ → ℕ → Blocks → Added × Blocks
unfolding local_id_of add_block
on_add_function_block type_id user_id made item now b = elim (lookup type_id b.types) [
  | none ↦ (not_found, b)
  | some name ↦
      if name == monitored_item_name
      then (added (local_id_of user_id made b), add_block (local_id_of user_id made b) item now b)
      else (nothing, record b { component_status = unavailable type_id })
]
