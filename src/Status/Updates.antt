-- ===== src/Status/Updates.antt =====
-- The update flags, by which the owner of a container knows when to report.
use opc_ua_modules.Base.{
  ◌≡◌, ◌≢◌, refl, true, false, ◌⊎◌, inl, inr, Option, none, some, [], ◌∷◌, String, ◌==◌, string_eq,
  arith, Option-cases, Bool-cases, sym, subst, ◌∙◌, ==_refl,
}
use opc_ua_modules.Base.Dict.{lookup, put, lookup-put}
use opc_ua_modules.Status.{
  Entry, Entries, set, add, reset, set_entry, add_entry, reset_entry, reset_all, any_updated,
  modify,
}
use opc_ua_modules.Status.Laws.{error_of, view}

any_updated-put :
    (name : String) (e : Entry) (m : Entries)
    → e.updated ≡ true
    → (any_updated (put name e m)).0 ≡ true
unfolding any_updated put
any_updated-put name e [] u = ground arith
any_updated-put name e ((k, x) ∷ m) u = ground (arith, any_updated-put name e m u)

-- Each of the changes raises the flag when it changes the error.
pub set_entry_raises :
    (msg : String) (e : Entry) → (set_entry msg e ≡ e) ⊎ ((set_entry msg e).updated ≡ true)
unfolding set_entry
set_entry_raises msg e = ground arith

pub reset_entry_raises : (e : Entry) → (reset_entry e ≡ e) ⊎ ((reset_entry e).updated ≡ true)
unfolding reset_entry
reset_entry_raises e = ground arith

modify_raises :
    (f : Entry → Entry) (name : String) (m n : Entries)
    → ((e : Entry) → (f e ≡ e) ⊎ ((f e).updated ≡ true))
    → modify f name m ≡ some n
    → view n name ≢ view m name
    → (any_updated n).0 ≡ true
unfolding view
modify_raises f name m n raises h d = elim (Option-cases (lookup name m)) [
  | inl e ↦ absurd (ground arith)
  | inr (e, found) ↦
      let n-put : put name (f e) m ≡ n = ground arith in
      elim (raises e) [
        | inl same ↦
            let vn : view n name ≡ some (error_of e) =
              subst (λ x. view x name ≡ some (error_of e)) n-put
                (rw (lookup-put name name (f e) m, view) (rw (==_refl name, same) refl)) in
            let vm : view m name ≡ some (error_of e) = rw (found, view) refl in
            absurd (d (vn ∙ sym vm))
        | inr up ↦ subst (λ x. (any_updated x).0 ≡ true) n-put (any_updated-put name (f e) m up)
      ]
]

-- Whenever `set`, `add` or `reset` changes the error of a name, the next `isUpdated` of the container
-- says so.
pub changes_are_reported :
    (name msg : String) (m n : Entries)
    → (set name msg m ≡ some n) ⊎ (add name msg m ≡ some n) ⊎ (reset name m ≡ some n)
    → view n name ≢ view m name
    → (any_updated n).0 ≡ true
unfolding set add reset
changes_are_reported name msg m n (inl h) d =
    modify_raises (set_entry msg) name m n (set_entry_raises msg) h d
changes_are_reported name msg m n (inr (inl h)) d =
    modify_raises (add_entry msg) name m n (λ e. inr (unfold add_entry in refl)) h d
changes_are_reported name msg m n (inr (inr h)) d =
    modify_raises reset_entry name m n reset_entry_raises h d

any_updated_once :
    (m : Entries) (name : String)
    → ((any_updated (any_updated m).1).0 ≡ false) × (view (any_updated m).1 name ≡ view m name)
unfolding any_updated view lookup
any_updated_once [] name = (refl, refl)
any_updated_once ((k, e) ∷ m) name =
    let ih = any_updated_once m name in (ground (arith, ih), ground (arith, ih))

reset_all_lem :
    (m : Entries) (name : String) (o : Option String)
    → view m name ≡ some o
    → (view (reset_all m) name ≡ some none) × (o ≢ none → (any_updated (reset_all m)).0 ≡ true)
unfolding reset_all any_updated view lookup
reset_all_lem [] name o h = absurd (cc)
reset_all_lem ((k, e) ∷ m) name o h = elim (Bool-cases (k == name)) [
  | inl hit ↦ (
    ground arith,
    λ d. elim (Bool-cases e.present) [
      | inl here ↦ rw here refl
      | inr gone ↦ absurd (d (ground arith))
    ],
  )
  | inr miss ↦
      let ih = reset_all_lem m name o (ground arith) in
      (ground (arith, ih.0), λ d. let up = ih.1 d in ground (arith, up))
]

-- `isUpdated` answers yes once: the next call answers no, and the errors are as they were. After
-- `resetAll` a name that the container has is without an error, and if it had one, `isUpdated` says
-- that something changed.
pub any_updated-reset_all :
    (m : Entries) (name : String) (o : Option String)
    → view m name ≡ some o
    → ((any_updated (any_updated m).1).0 ≡ false)
      × (view (any_updated m).1 name ≡ some o)
      × (view (reset_all m) name ≡ some none)
      × (o ≢ none → (any_updated (reset_all m)).0 ≡ true)
any_updated-reset_all m name o h =
    let (settled, kept) = any_updated_once m name in
    let (cleared, raised) = reset_all_lem m name o h in (settled, kept ∙ h, cleared, raised)
