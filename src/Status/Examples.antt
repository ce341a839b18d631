-- ===== src/Status/Examples.antt =====
-- A container with two names on concrete inputs.
use opc_ua_modules.Base.{
  ◌⊎◌, ◌≡◌, ◌≢◌, inl, refl, true, false, Option, none, some, [], ◌∷◌, String, string_eq,
}
use opc_ua_modules.Base.Dict.{lookup, put}
use opc_ua_modules.Status.{Entries, new_entry, set, add, reset, any_updated}
use opc_ua_modules.Status.Laws.{view, Steps, joined, IsCleanAll, operations_refine}
use opc_ua_modules.Status.Updates.{changes_are_reported}

abbrev fresh : Entries
fresh =
    ("config", new_entry)
    ∷ ("value", record { message = "late"; present = true; updated = false })
    ∷ []

abbrev changed : Entries
changed =
    ("config", record { message = "empty"; present = true; updated = true })
    ∷ ("value", record { message = "late"; present = true; updated = false })
    ∷ []

fresh-IsCleanAll : IsCleanAll fresh
fresh-IsCleanAll = (λ h. refl, (λ h. absurd (cc), tt))

view-fresh : view fresh "value" ≡ some (some "late")
unfolding view lookup
view-fresh = refl

set-fresh : set "config" "empty" fresh ≡ some changed
unfolding set lookup put
set-fresh = refl

view-changes : view changed "config" ≢ view fresh "config"
unfolding view lookup
view-changes h = absurd (cc)

operations_refine_example :
    ((n : Entries) × (set "value" "early" fresh ≡ some n) × Steps "value" fresh n (some "early"))
    × ((n : Entries) × (add "value" "early" fresh ≡ some n)
        × Steps "value" fresh n (some (joined (some "late") "early")))
    × ((n : Entries) × (reset "value" fresh ≡ some n) × Steps "value" fresh n none)
    × ((n : Entries)
        → (set "value" "early" fresh ≡ some n)
          ⊎ (add "value" "early" fresh ≡ some n)
          ⊎ (reset "value" fresh ≡ some n)
        → IsCleanAll n)
operations_refine_example =
    operations_refine "value" "early" fresh (some "late") fresh-IsCleanAll view-fresh

changes_are_reported_example : (any_updated changed).0 ≡ true
changes_are_reported_example =
    changes_are_reported "config" "empty" fresh changed (inl set-fresh) view-changes

abbrev late : Option String
late = some "late"
