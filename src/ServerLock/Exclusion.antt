-- ===== src/ServerLock/Exclusion.antt =====
-- Configuration control belongs to one session at a time.
use opc_ua_modules.Base.{
  subst, ◌≡◌, ◌≢◌, refl, ap, ◌∙◌, true, false, String, HasEq, ==_refl, ==_ne, arith, List, [], ◌∷◌,
  All,
}
use opc_ua_modules.Base.Int.{ℤ, negsuc, ◌+ℤ◌, ◌≤ℤ◌, +ℤ_parts, ltb_ℤ}
use opc_ua_modules.ServerLock.{
  ServerLock, seconds, has_active_configuration_control_lock, has_configuration_control_lock,
  lock_configuration_control, refuse_configuration_control_lock, password_lock, password_unlock,
  can_control_acq, has_configuration_control_access,
}

-- An operation of a session, at a time.
pub data Request {ℓ} (N : Type ℓ) : Type ℓ where
  locks : ℤ → N → ℤ → Request N
  refuses : ℤ → N → Request N
  sets_password : ℤ → N → String → Request N
  clears_password : ℤ → N → String → Request N

module _ {ℓ} {N : Type ℓ} where
  abbrev pub asker : Request N → N
  asker (locks now id timeout) = id
  asker (refuses now id) = id
  asker (sets_password now id password) = id
  asker (clears_password now id password) = id

  abbrev pub time : Request N → ℤ
  time (locks now id timeout) = now
  time (refuses now id) = now
  time (sets_password now id password) = now
  time (clears_password now id password) = now

module _ {ℓ} {N : Type ℓ} ⦃e : HasEq N⦄ where
  unfoldable pub serve : Request N → ServerLock N → ServerLock N
  unfolding lock_configuration_control refuse_configuration_control_lock password_lock
      password_unlock
  serve (locks now id timeout) l = (lock_configuration_control now id timeout l).0
  serve (refuses now id) l = refuse_configuration_control_lock now id l
  serve (sets_password now id password) l = (password_lock now password id l).0
  serve (clears_password now id password) l = (password_unlock now password id l).0

  unfoldable pub serve_all : List (Request N) → ServerLock N → ServerLock N
  serve_all [] l = l
  serve_all (r ∷ rs) l = serve_all rs (serve r l)

  -- The request comes from another session while the lock is active.
  abbrev pub IsForeign : ServerLock N → Request N → Type ℓ
  IsForeign l r =
      (asker r ≢ l.session_id) × (has_active_configuration_control_lock (time r) l ≡ true)

  serve_foreign : (l : ServerLock N) (r : Request N) → IsForeign l r → serve r l ≡ l
  unfolding serve
  serve_foreign l (locks now id timeout) (n, a) = ground (arith, ==_ne id l.session_id n)
  serve_foreign l (refuses now id) (n, a) = ground (arith, ==_ne id l.session_id n)
  serve_foreign l (sets_password now id password) (n, a) = ground (arith, ==_ne id l.session_id n)
  serve_foreign l (clears_password now id password) (n, a) = ground (arith, ==_ne id l.session_id n)

  unchanged : (l : ServerLock N) (rs : List (Request N)) → All (IsForeign l) rs → serve_all rs l ≡ l
  unfolding serve_all
  unchanged l [] h = refl
  unchanged l (r ∷ rs) h = ap (serve_all rs) (serve_foreign l r h.0) ∙ unchanged l rs h.1

  -- Nobody but the holder may lock, edit the password or control the acquisition meanwhile.
  foreign_refused :
      (l : ServerLock N) (now : ℤ) (id : N) (timeout : ℤ) (password : String)
      → id ≢ l.session_id
      → has_active_configuration_control_lock now l ≡ true
      → ((lock_configuration_control now id timeout l).1 ≡ false)
        × ((password_lock now password id l).1 ≡ false)
        × ((password_unlock now password id l).1 ≡ false)
        × (can_control_acq now id l ≡ false)
  unfolding lock_configuration_control password_lock password_unlock can_control_acq
  foreign_refused l now id timeout password n a =
      let ne = ==_ne id l.session_id n in
      (ground (arith, ne), ground (arith, ne), ground (arith, ne), ground (arith, ne))

  -- While a session's lock is active, no sequence of requests of other sessions changes the lock,
  -- its holder, its end or the password, and after it every other session is still refused when it
  -- locks, edits the password or controls the acquisition.
  pub serve_all_foreign :
      (l : ServerLock N) (rs : List (Request N)) (now : ℤ) (id : N) (timeout : ℤ)
      (password : String)
      → All (IsForeign l) rs
      → id ≢ l.session_id
      → has_active_configuration_control_lock now l ≡ true
      → let m = serve_all rs l in
        (m ≡ l)
        × ((lock_configuration_control now id timeout m).1 ≡ false)
        × ((password_lock now password id m).1 ≡ false)
        × ((password_unlock now password id m).1 ≡ false)
        × (can_control_acq now id m ≡ false)
  serve_all_foreign l rs now id timeout password h n a =
      let same = unchanged l rs h in
      let (locks_not, sets_not, clears_not, controls_not) =
        foreign_refused l now id timeout password n a in
      (same, rw same locks_not, rw same sets_not, rw same clears_not, rw same controls_not)

  -- A holder that refuses the lock gives it up at once: from then on nobody's lock is active, and
  -- the id of the holder stays behind without effect.
  pub refuse_releases :
      (l : ServerLock N) (now t : ℤ)
      → now ≤ℤ t
      → has_configuration_control_lock now l.session_id l ≡ true
      → has_active_configuration_control_lock t
          (refuse_configuration_control_lock now l.session_id l)
        ≡ false
  unfolding refuse_configuration_control_lock
  refuse_releases l now t le h =
      ground (arith, ==_refl l.session_id, +ℤ_parts now (seconds (negsuc 0)))

  -- A session that gets the lock holds it until its timeout has passed, and not longer; then every
  -- session has access again. A holder that refuses the lock gives it up at once: from then on
  -- nobody's lock is active.
  pub lock_configuration_control_lem :
      (l : ServerLock N) (now t : ℤ) (id other : N) (timeout : ℤ)
      → (lock_configuration_control now id timeout l).1 ≡ true
      → let m = (lock_configuration_control now id timeout l).0 in
        (has_configuration_control_lock t id m ≡ ltb_ℤ t (now +ℤ seconds timeout))
        × (ltb_ℤ t (now +ℤ seconds timeout) ≡ false
            → has_configuration_control_access t other m ≡ true)
        × ((r : ℤ)
            → r ≤ℤ t
            → has_configuration_control_lock r id m ≡ true
            → has_active_configuration_control_lock t (refuse_configuration_control_lock r id m)
              ≡ false)
  unfolding lock_configuration_control
  lock_configuration_control_lem l now t id other timeout h =
      let m = (lock_configuration_control now id timeout l).0 in
      let holder : m.session_id ≡ id = ground arith in
      (
        ground (arith, ==_refl id),
        λ late. ground arith,
        λ r le has.
            subst
              (λ i.
                has_configuration_control_lock r i m ≡ true
                → has_active_configuration_control_lock t (refuse_configuration_control_lock r i m)
                  ≡ false)
              holder (refuse_releases m r t le) has,
      )

  pub refuse-other :
      (l : ServerLock N) (id : N) (now : ℤ)
      → id ≢ l.session_id
      → refuse_configuration_control_lock now id l ≡ l
  unfolding refuse_configuration_control_lock
  refuse-other l id now n = rw (==_ne id l.session_id n) refl
