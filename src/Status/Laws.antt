-- ===== src/Status/Laws.antt =====
-- A container read as a map from names to errors, which its operations implement.
use Prim.Native.String.{◌++◌ as str_append}
use opc_ua_modules.Base.{
  ◌≡◌, ◌≢◌, refl, false, ◌⊎◌, inl, inr, Option, none, some, [], ◌∷◌, String, ◌==◌, string_eq, ==_ne,
  ==_refl, if◌then◌else◌, arith, Option-cases, Bool-cases, sym, subst, ap, All,
}
use opc_ua_modules.Base.Dict.{lookup, put, lookup-put}
use opc_ua_modules.Status.{
  Entry, Entries, set, add, reset, set_entry, add_entry, reset_entry, modify,
}

-- What an entry stands for: its error message, and none where there is no error.
abbrev pub error_of : Entry → Option String
error_of e = if e.present then some e.message else none

-- The specification: a name that was added has an error or none.
unfoldable pub view : Entries → String → Option (Option String)
view m name = elim (lookup name m) [ none ↦ none | some e ↦ some (error_of e) ]

-- An entry without an error has no message.
abbrev pub IsClean : Entry → Type 0
IsClean e = e.present ≡ false → e.message ≡ ""

-- The container `n` is `m` with the error of one name set to `error`.
pub record Steps (name : String) (m n : Entries) (error : Option String) : Type 0 where
  pub here : view n name ≡ some error
  pub elsewhere : (other : String) → other ≢ name → view n other ≡ view m other

modify-Steps :
    (f : Entry → Entry) (name : String) (m : Entries) (e : Entry)
    → lookup name m ≡ some e
    → (n : Entries) × (modify f name m ≡ some n) × Steps name m n (error_of (f e))
unfolding view
modify-Steps f name m e h = (
  put name (f e) m,
  rw (h, modify) refl,
  record {
    here = rw (lookup-put name name (f e) m, view) (rw (==_refl name) refl);
    elsewhere = λ other d.
        rw (lookup-put name other (f e) m, view) (rw (==_ne name other (λ p. d (sym p))) refl);
  },
)

view-lookup :
    (name : String) (m : Entries) (o : Option String)
    → view m name ≡ some o
    → (e : Entry) × (lookup name m ≡ some e) × (error_of e ≡ o)
unfolding view
view-lookup name m o h = elim (Option-cases (lookup name m)) [
  | inl e ↦ absurd (ground arith)
  | inr (e, found) ↦ (e, found, ground arith)
]

Steps-error :
    (name : String) (m n : Entries) (o o' : Option String)
    → o ≡ o'
    → Steps name m n o
    → Steps name m n o'
Steps-error name m n o o' h s = record { here = rw (← h) s.here; elsewhere = s.elsewhere }

-- What `add` makes of the error that is there.
abbrev pub joined : Option String → String → String
joined none msg = msg
joined (some t) msg = if t == "" then msg else str_append (str_append t "; ") msg

-- Every entry is clean.
abbrev pub IsCleanAll : Entries → Type 0
IsCleanAll = All (λ (p : String × Entry). IsClean p.1)

lookup-IsClean :
    (name : String) (m : Entries) (e : Entry) → IsCleanAll m → lookup name m ≡ some e → IsClean e
unfolding lookup
lookup-IsClean name [] e a h = absurd (cc)
lookup-IsClean name ((k, x) ∷ m) e a h = elim (Bool-cases (k == name)) [
  | inl hit ↦ subst IsClean {x = x} {y = e} (ground arith) a.0
  | inr miss ↦ lookup-IsClean name m e a.1 (ground arith)
]

operations-Steps :
    (name msg : String) (m : Entries) (o : Option String)
    → IsCleanAll m
    → view m name ≡ some o
    → ((n : Entries) × (set name msg m ≡ some n) × Steps name m n (some msg))
      × ((n : Entries) × (add name msg m ≡ some n) × Steps name m n (some (joined o msg)))
      × ((n : Entries) × (reset name m ≡ some n) × Steps name m n none)
unfolding set add reset
operations-Steps name msg m o clean h =
    let (e, found, err) = view-lookup name m o h in
    let c = lookup-IsClean name m e clean found in
    let (n, p, s) = modify-Steps (set_entry msg) name m e found in
    let (n', p', s') = modify-Steps (add_entry msg) name m e found in
    let (n'', p'', s'') = modify-Steps reset_entry name m e found in
    (
      (n, p, Steps-error name m n _ _ (set_lem e) s),
      (n', p', Steps-error name m n' _ _ (ap some (add_lem e o err c)) s'),
      (n'', p'', Steps-error name m n'' _ _ (reset_lem e) s''),
    )
  where
    set_lem : (e : Entry) → error_of (set_entry msg e) ≡ some msg
    set_lem e = ground (arith, string_eq.same_iff e.message msg)

    add_lem :
        (e : Entry) (o : Option String)
        → error_of e ≡ o
        → IsClean e
        → (add_entry msg e).message ≡ joined o msg
    add_lem e o h c = elim (Bool-cases e.present) [
      | inl y ↦ rw (← h) (rw y refl)
      | inr z ↦ rw (← h) (rw (z, c z) refl)
    ]

    reset_lem : (e : Entry) → error_of (reset_entry e) ≡ none
    reset_lem e = ground arith

put-IsCleanAll :
    (name : String) (e : Entry) (m : Entries) → IsClean e → IsCleanAll m → IsCleanAll (put name e m)
unfolding put
put-IsCleanAll name e [] c a = (c, tt)
put-IsCleanAll name e ((k, x) ∷ m) c a = elim (Bool-cases (k == name)) [
  | inl hit ↦ rw hit (c, a.1)
  | inr miss ↦ rw miss (a.0, put-IsCleanAll name e m c a.1)
]

modify-IsCleanAll :
    (f : Entry → Entry) (name : String) (m n : Entries)
    → ((e : Entry) → IsClean e → IsClean (f e))
    → IsCleanAll m
    → modify f name m ≡ some n
    → IsCleanAll n
modify-IsCleanAll f name m n keeps a h = elim (Option-cases (lookup name m)) [
  | inl e ↦ absurd (ground arith)
  | inr (e, found) ↦
      subst IsCleanAll {x = put name (f e) m} {y = n} (ground arith)
        (put-IsCleanAll name (f e) m (keeps e (lookup-IsClean name m e a found)) a)
]

operations-IsCleanAll :
    (name msg : String) (m n : Entries)
    → IsCleanAll m
    → (set name msg m ≡ some n) ⊎ (add name msg m ≡ some n) ⊎ (reset name m ≡ some n)
    → IsCleanAll n
unfolding set add reset
operations-IsCleanAll name msg m n a (inl h) =
    modify-IsCleanAll (set_entry msg) name m n (λ e c p. ground (arith, c)) a h
operations-IsCleanAll name msg m n a (inr (inl h)) =
    modify-IsCleanAll (add_entry msg) name m n (λ e c p. cc) a h
operations-IsCleanAll name msg m n a (inr (inr h)) =
    modify-IsCleanAll reset_entry name m n (λ e c p. ground (arith, c)) a h

-- On a name that was added, `set` gives it the message, `reset` clears it, and `add` appends to the
-- message that is there, with a semicolon; all leave the errors of the other names alone.
-- All three keep the invariant of the entries.
pub operations_refine :
    (name msg : String) (m : Entries) (o : Option String)
    → IsCleanAll m
    → view m name ≡ some o
    → ((n : Entries) × (set name msg m ≡ some n) × Steps name m n (some msg))
      × ((n : Entries) × (add name msg m ≡ some n) × Steps name m n (some (joined o msg)))
      × ((n : Entries) × (reset name m ≡ some n) × Steps name m n none)
      × ((n : Entries)
          → (set name msg m ≡ some n) ⊎ (add name msg m ≡ some n) ⊎ (reset name m ≡ some n)
          → IsCleanAll n)
operations_refine name msg m o clean h =
    let (sets, adds, resets) = operations-Steps name msg m o clean h in
    (sets, adds, resets, λ n done. operations-IsCleanAll name msg m n clean done)
