-- ===== src/Session.antt =====
-- A session of the server: opcuasession.cpp of shared/libraries/opcua/opcuaserver. Sessions share
-- the server's lock through a pointer, so an operation takes the lock and returns it.
use opc_ua_modules.Base.{◌≡◌, Bool, true, false, not, HasEq, ◌==◌, String, if◌then◌else◌, ◌≢◌}
use opc_ua_modules.Base.Int.{ℤ, ◌≤ℤ◌}
use opc_ua_modules.ServerLock.{
  ServerLock, has_configuration_control_lock, refuse_configuration_control_lock,
  lock_configuration_control, can_control_acq, password_lock, password_unlock,
  has_active_configuration_control_lock,
}
use opc_ua_modules.ServerLock.Exclusion.{refuse_releases, refuse-other}

pub record Session {ℓ} (N : Type ℓ) : Type ℓ where
  pub session_id : N
  pub configuration_lock_token_id : N

-- `null` is the null id, which `isNull` recognizes.
module _ {ℓ} {N : Type ℓ} ⦃e : HasEq N⦄ (null : N) where
  pub get_configuration_lock_token_id : Session N → N
  get_configuration_lock_token_id s =
      if not (s.configuration_lock_token_id == null)
      then s.configuration_lock_token_id
      else s.session_id

  pub set_configuration_lock_token_id : N → Session N → Session N
  set_configuration_lock_token_id id s = record s { configuration_lock_token_id = id }

  pub session_has_lock : ℤ → Session N → ServerLock N → Bool
  unfolding get_configuration_lock_token_id
  session_has_lock now s l =
      has_configuration_control_lock now (get_configuration_lock_token_id s) l

  pub session_refuse_lock : ℤ → Session N → ServerLock N → ServerLock N
  unfolding get_configuration_lock_token_id
  session_refuse_lock now s l =
      refuse_configuration_control_lock now (get_configuration_lock_token_id s) l

  pub session_lock : ℤ → ℤ → Session N → ServerLock N → ServerLock N × Bool
  unfolding get_configuration_lock_token_id
  session_lock now timeout s l =
      lock_configuration_control now (get_configuration_lock_token_id s) timeout l

  pub session_can_control_acq : ℤ → Session N → ServerLock N → Bool
  unfolding get_configuration_lock_token_id
  session_can_control_acq now s l = can_control_acq now (get_configuration_lock_token_id s) l

  pub session_password_lock : ℤ → String → Session N → ServerLock N → ServerLock N × Bool
  unfolding get_configuration_lock_token_id
  session_password_lock now password s l =
      password_lock now password (get_configuration_lock_token_id s) l

  pub session_password_unlock : ℤ → String → Session N → ServerLock N → ServerLock N × Bool
  unfolding get_configuration_lock_token_id
  session_password_unlock now password s l =
      password_unlock now password (get_configuration_lock_token_id s) l

  -- What `OpcUaServer::closeSession` does to the lock: it refuses by the session's own id.
  pub close_session_lock : ℤ → Session N → ServerLock N → ServerLock N
  close_session_lock now s l = refuse_configuration_control_lock now s.session_id l

  -- Closing a session that holds the lock under its own id releases the lock. Closing one that
  -- holds it under another token leaves the lock as it is.
  pub close_session_lock_lem :
      (s : Session N) (l : ServerLock N) (now t : ℤ)
      → now ≤ℤ t
      → has_configuration_control_lock now l.session_id l ≡ true
      → (s.session_id ≡ l.session_id
          → has_active_configuration_control_lock t (close_session_lock now s l) ≡ false)
        × (s.session_id ≢ l.session_id → close_session_lock now s l ≡ l)
  unfolding close_session_lock
  close_session_lock_lem s l now t le h = (
    λ same. rw same (refuse_releases l now t le h),
    λ other. refuse-other l s.session_id now other,
  )
