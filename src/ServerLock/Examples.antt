-- ===== src/ServerLock/Examples.antt =====
-- The server lock on concrete inputs: two sessions, known by numbers.
use opc_ua_modules.Base.{
  ℕ, List, ◌≡◌, ◌≢◌, refl, true, false, String, nat_eq, string_eq, [], ◌∷◌, arith, ◌==◌, ap,
}
use opc_ua_modules.Base.Int.{pos}
use opc_ua_modules.ServerLock.{
  ServerLock, has_active_configuration_control_lock, lock_configuration_control, password_lock,
  password_unlock, can_control_acq, can_edit_password_lock,
}
use opc_ua_modules.ServerLock.Exclusion.{
  Request, locks, refuses, sets_password, clears_password, serve_all, serve_all_foreign,
}
use opc_ua_modules.ServerLock.Password.{IsNotClearing, password_protects}

abbrev held : ServerLock ℕ
held = record { password = ""; session_id = 1; valid_to = pos 100 }

abbrev secured : ServerLock ℕ
secured = record { password = "key"; session_id = 1; valid_to = pos 0 }

held-active : has_active_configuration_control_lock (pos 5) held ≡ true
unfolding has_active_configuration_control_lock
held-active = refl

held-editable : can_edit_password_lock (pos 5) 1 held ≡ true
unfolding can_edit_password_lock
held-editable = refl

abbrev rival : ℕ
rival = 2

two_not_one : rival ≢ held.session_id
two_not_one h = absurd (omega arith)

lock_granted : (lock_configuration_control (pos 5) 1 (pos 3) held).1 ≡ true
unfolding lock_configuration_control
lock_granted = refl

key_set : secured.password ≢ held.password
key_set h =
    let p : (secured.password == held.password) ≡ true =
      (string_eq.same_iff secured.password held.password).1 h in
    absurd (cc)

abbrev door : String
door = "door"

other_key : door ≢ secured.password
other_key h =
    let p : (door == secured.password) ≡ true = (string_eq.same_iff door secured.password).1 h in
    absurd (cc)

given : Request ℕ → String
given (locks now id timeout) = ""
given (refuses now id) = ""
given (sets_password now id password) = password
given (clears_password now id password) = password

clears-door : IsNotClearing "key" (clears_password (pos 5) rival door)
unfolding given
clears-door now id h = other_key (ap given h)

abbrev rivals : List (Request ℕ)
rivals = locks (pos 5) 2 (pos 9) ∷ refuses (pos 5) 2 ∷ sets_password (pos 5) 2 "key" ∷ []

serve_all_foreign_example :
    let m = serve_all rivals held in
    (m ≡ held)
    × ((lock_configuration_control (pos 5) 2 (pos 9) m).1 ≡ false)
    × ((password_lock (pos 5) "key" 2 m).1 ≡ false)
    × ((password_unlock (pos 5) "key" 2 m).1 ≡ false)
    × (can_control_acq (pos 5) 2 m ≡ false)
serve_all_foreign_example =
    serve_all_foreign held rivals (pos 5) 2 (pos 9) "key"
      ((two_not_one, held-active), ((two_not_one, held-active), ((two_not_one, held-active), tt)))
      two_not_one held-active

password_protects_example :
    ((serve_all
        (clears_password (pos 5) 2 "door" ∷ sets_password (pos 5) 1 "door" ∷ [])
        secured).password
      ≡ "key")
    × (can_control_acq (pos 5) 1 (
          serve_all
            (clears_password (pos 5) 2 "door" ∷ sets_password (pos 5) 1 "door" ∷ [])
            secured)
        ≡ false)
password_protects_example =
    password_protects secured "key"
      (clears_password (pos 5) 2 "door" ∷ sets_password (pos 5) 1 "door" ∷ []) (pos 5) 1 refl
      key_set (clears-door, (λ now id h. absurd (cc), tt))
