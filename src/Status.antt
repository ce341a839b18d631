-- ===== src/Status.antt =====
-- The named errors of a component: status_container.h of
-- shared/libraries/opcuageneric/opcuageneric_client. A container maps a name to an entry. A handle
-- (`Error`) has the name and a weak pointer to the container: `none` below is a container that is
-- gone. `entries.at(name)` throws on a name that is not there, which is the other `none`.
pub mod Laws
pub mod Updates
mod Examples
use Prim.Native.String.{◌++◌ as str_append}
use opc_ua_modules.Base.{
  Bool, true, false, not, ◌||◌, ◌&&◌, Option, none, some, List, [], ◌∷◌, ◌++◌, String, HasEq, ◌==◌,
  string_eq, if◌then◌else◌, map,
}
use opc_ua_modules.Base.Dict.{lookup, put, contains}

pub record Entry : Type 0 where
  pub message : String
  pub present : Bool
  pub updated : Bool

abbrev pub new_entry : Entry
new_entry = record { message = ""; present = false; updated = true }

abbrev pub Entries : Type 0
Entries = List (String × Entry)

-- `addStatus`: none is an invalid handle, for a name that is taken.
pub add_status : String → Entries → Entries × Option String
unfolding contains
add_status name m = if contains name m then (m, none) else (m ++ (name, new_entry) ∷ [], some name)

-- `getError`
pub get_error : String → Entries → Option String
unfolding contains
get_error name m = if contains name m then some name else none

-- A method of the container that changes the entry `at(name)`.
abbrev modify : (Entry → Entry) → String → Entries → Option Entries
modify f name m = elim (lookup name m) [ none ↦ none | some e ↦ some (put name (f e) m) ]

unfoldable pub set_entry : String → Entry → Entry
set_entry msg e =
    if not e.present || not (e.message == msg)
    then record { message = msg; present = true; updated = true }
    else e

unfoldable pub add_entry : String → Entry → Entry
add_entry msg e = record {
  message = if e.message == "" then msg else str_append (str_append e.message "; ") msg;
  present = true;
  updated = true;
}

unfoldable pub reset_entry : Entry → Entry
reset_entry e = if e.present then record { message = ""; present = false; updated = true } else e

-- `isUpdatedImpl` reads the flag and clears it.
unfoldable pub read_updated : Entry → Entry
read_updated e = record e { updated = false }

pub set : String → String → Entries → Option Entries
unfolding set_entry
set name msg m = modify (set_entry msg) name m

pub add : String → String → Entries → Option Entries
unfolding add_entry
add name msg m = modify (add_entry msg) name m

pub reset : String → Entries → Option Entries
unfolding reset_entry
reset name m = modify reset_entry name m

pub ok : String → Entries → Option Bool
ok name m = elim (lookup name m) [ none ↦ none | some e ↦ some (not e.present) ]

pub get_message : String → Entries → Option String
get_message name m = elim (lookup name m) [ none ↦ none | some e ↦ some e.message ]

pub build_status_message : String → Entries → Option String
build_status_message name m = elim (lookup name m) [
  | none ↦ none
  | some e ↦ some (str_append (str_append name " error: ") e.message)
]

-- `isUpdated(name)`: the flag, and the container with the flag cleared.
pub is_updated : String → Entries → Option (Bool × Entries)
unfolding read_updated
is_updated name m = elim (lookup name m) [
  | none ↦ none
  | some e ↦ some (e.updated, put name (read_updated e) m)
]

-- `isUpdated()`: whether any entry was updated; every flag is cleared.
pub any_updated : Entries → Bool × Entries
unfolding read_updated
any_updated [] = (false, [])
any_updated ((name, e) ∷ m) =
    let rest = any_updated m in (e.updated || rest.0, (name, read_updated e) ∷ rest.1)

unfoldable pub clear_entry : Entry → Entry
clear_entry e = record {
  message = "";
  present = false;
  updated = if e.present then true else e.updated;
}

-- `resetAll`
pub reset_all : Entries → Entries
unfolding clear_entry
reset_all [] = []
reset_all ((name, e) ∷ m) = (name, clear_entry e) ∷ reset_all m

-- The handle's methods: without a container they do nothing and answer as for no error.
pub handle_set : String → String → Option Entries → Option (Option Entries)
unfolding set
handle_set name msg none = some none
handle_set name msg (some m) = elim (set name msg m) [ none ↦ none | some m' ↦ some (some m') ]

pub handle_ok : String → Option Entries → Option Bool
unfolding ok
handle_ok name none = some true
handle_ok name (some m) = ok name m

pub handle_message : String → Option Entries → Option String
unfolding get_message
handle_message name none = some ""
handle_message name (some m) = get_message name m
