-- ===== src/ServerLock/Password.antt =====
-- The password of the server lock.
use opc_ua_modules.Base.{
  ◌≡◌, ◌≢◌, refl, true, false, String, HasEq, ==_refl, ==_ne, arith, List, [], ◌∷◌, All, ◌∙◌, ap,
  sym, string_eq,
}
use opc_ua_modules.Base.Int.{ℤ}
use opc_ua_modules.ServerLock.{
  ServerLock, is_password_locked, can_edit_password_lock, password_lock, password_unlock,
  can_control_acq,
}
use opc_ua_modules.ServerLock.Exclusion.{
  Request, locks, refuses, sets_password, clears_password, serve, serve_all,
}

module _ {ℓ} {N : Type ℓ} ⦃e : HasEq N⦄ where
  abbrev pub IsNotClearing : String → Request N → Type ℓ
  IsNotClearing password r = (now : ℤ) (id : N) → r ≢ clears_password now id password

  serve-password :
      (l : ServerLock N) (r : Request N)
      → l.password ≢ ""
      → IsNotClearing l.password r
      → (serve r l).password ≡ l.password
  unfolding serve
  serve-password l (locks now id timeout) p n = ground arith
  serve-password l (refuses now id) p n = ground arith
  serve-password l (sets_password now id password) p n = ground (arith, ==_ne l.password "" p)
  serve-password l (clears_password now id password) p n = ground (
    arith,
    ==_ne l.password "" p,
    ==_ne l.password password (λ h. n now id (ap (clears_password now id) (sym h))),
  )

  -- Once a password is set, no history of requests without that password, of whatever sessions and
  -- at whatever times, clears or replaces it, and nobody can control the acquisition.
  pub password_protects :
      (l : ServerLock N) (p : String) (rs : List (Request N)) (now : ℤ) (id : N)
      → l.password ≡ p
      → p ≢ ""
      → All (IsNotClearing p) rs
      → ((serve_all rs l).password ≡ p) × (can_control_acq now id (serve_all rs l) ≡ false)
  unfolding serve_all can_control_acq
  password_protects l p [] now id h n a = (h, rw h (rw (==_ne p "" n) refl))
  password_protects l p (r ∷ rs) now id h n a =
      password_protects (serve r l) p rs now id (serve-password l r (rw h n) (rw h (a.0)) ∙ h) n a.1

  password_lock_unset :
      (l : ServerLock N) (p : String) (now : ℤ) (id : N)
      → l.password ≡ ""
      → can_edit_password_lock now id l ≡ true
      → password_lock now p id l ≡ (record l { password = p }, true)
  unfolding password_lock
  password_lock_unset l p now id h c = rw (c, h) refl

  password_unlock_right :
      (l : ServerLock N) (p : String) (now : ℤ) (id : N)
      → can_edit_password_lock now id l ≡ true
      → l.password ≡ p
      → p ≢ ""
      → password_unlock now p id l ≡ (record l { password = "" }, true)
  unfolding password_unlock
  password_unlock_right l p now id c h n = rw (c, h) (rw (==_ne p "" n, ==_refl p) refl)

  password_unlock_wrong :
      (l : ServerLock N) (q : String) (now : ℤ) (id : N)
      → can_edit_password_lock now id l ≡ true
      → l.password ≢ ""
      → l.password ≢ q
      → password_unlock now q id l ≡ (l, false)
  unfolding password_unlock
  password_unlock_wrong l q now id c n d =
      rw c (rw (==_ne l.password "" n, ==_ne l.password q d) refl)

  password_cleared : (l : ServerLock N) → l.password ≡ "" → record l { password = "" } ≡ l
  password_cleared l h = λ i. record l { password = sym h i }

  -- A session that may edit the password of an unlocked server locks it and unlocks it again by the
  -- same password, which leaves the lock as it was; any other password is refused.
  pub password_unlock-password_lock :
      (l : ServerLock N) (p q : String) (now : ℤ) (id : N)
      → l.password ≡ ""
      → p ≢ ""
      → q ≢ p
      → can_edit_password_lock now id l ≡ true
      → let m = (password_lock now p id l).0 in
        (is_password_locked m ≡ true)
        × (password_unlock now p id m ≡ (l, true))
        × (password_unlock now q id m ≡ (m, false))
  password_unlock-password_lock l p q now id h n d c =
      let m : ServerLock N = record l { password = p } in
      let cm : can_edit_password_lock now id m ≡ true = unfold can_edit_password_lock in c in
      rw (password_lock_unset l p now id h c) (
        unfold is_password_locked in rw (==_ne p "" n) refl,
        password_unlock_right m p now id cm refl n ∙ ap (λ x. (x, true)) (password_cleared l h),
        password_unlock_wrong m q now id cm n (λ x. d (sym x)),
      )
