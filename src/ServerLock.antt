-- ===== src/ServerLock.antt =====
-- The lock of the server on configuration control and its password: opcuaserverlock.h and
-- opcuaserverlock.cpp of shared/libraries/opcua/opcuaserver.
-- A session id is a node id of the OPC UA stack, known here by its equality test. Times are
-- nanoseconds of the steady clock, which is an argument and is read once for each operation.
pub mod Exclusion
pub mod Password
mod Examples
use opc_ua_modules.Base.{
  ℕ, suc, ◌+◌, ◌-◌, ◌*◌, Bool, true, false, not, ◌&&◌, ◌||◌, String, HasEq, ◌==◌, string_eq,
  if◌then◌else◌,
}
use opc_ua_modules.Base.Int.{ℤ, pos, negsuc, ◌+ℤ◌, ltb_ℤ}

pub record ServerLock {ℓ} (N : Type ℓ) : Type ℓ where
  pub password : String
  pub session_id : N
  pub valid_to : ℤ

abbrev pub ns_per_s : ℕ
ns_per_s = 1000000000

-- `std::chrono::seconds` as nanoseconds.
abbrev pub seconds : ℤ → ℤ
seconds (pos n) = pos (n * ns_per_s)
seconds (negsuc n) = negsuc (suc n * ns_per_s - 1)

pub is_password_locked {ℓ} : {N : Type ℓ} → ServerLock N → Bool
is_password_locked l = not (l.password == "")

module _ {ℓ} {N : Type ℓ} ⦃e : HasEq N⦄ where
  unfoldable pub has_active_configuration_control_lock : ℤ → ServerLock N → Bool
  has_active_configuration_control_lock now l = ltb_ℤ now l.valid_to

  unfoldable pub has_configuration_control_lock : ℤ → N → ServerLock N → Bool
  unfolding has_active_configuration_control_lock
  has_configuration_control_lock now id l =
      id == l.session_id && has_active_configuration_control_lock now l

  pub has_configuration_control_access : ℤ → N → ServerLock N → Bool
  unfolding has_configuration_control_lock
  has_configuration_control_access now id l =
      has_configuration_control_lock now id l || not (has_active_configuration_control_lock now l)

  pub lock_configuration_control : ℤ → N → ℤ → ServerLock N → ServerLock N × Bool
  unfolding has_configuration_control_access
  lock_configuration_control now id timeout l =
      if has_configuration_control_access now id l
      then (record l { session_id = id; valid_to = now +ℤ seconds timeout }, true)
      else (l, false)

  pub refuse_configuration_control_lock : ℤ → N → ServerLock N → ServerLock N
  unfolding lock_configuration_control
  refuse_configuration_control_lock now id l =
      if id == l.session_id then (lock_configuration_control now id (negsuc 0) l).0 else l

  -- The constructor, on the null id: the default time point is 0.
  pub new_lock : ℤ → N → ServerLock N
  unfolding refuse_configuration_control_lock
  new_lock now null =
      refuse_configuration_control_lock now null
        (record { password = ""; session_id = null; valid_to = pos 0 })

  pub can_edit_password_lock : ℤ → N → ServerLock N → Bool
  unfolding has_configuration_control_lock
  can_edit_password_lock now id l =
      if has_configuration_control_lock now id l
      then true
      else not (has_active_configuration_control_lock now l)

  pub password_lock : ℤ → String → N → ServerLock N → ServerLock N × Bool
  unfolding can_edit_password_lock is_password_locked
  password_lock now password id l =
      if not (can_edit_password_lock now id l)
      then (l, false)
      else if is_password_locked l
      then (l, false)
      else (record l { password = password }, true)

  pub password_unlock : ℤ → String → N → ServerLock N → ServerLock N × Bool
  unfolding can_edit_password_lock is_password_locked
  password_unlock now password id l =
      if not (can_edit_password_lock now id l)
      then (l, false)
      else if is_password_locked l && not (l.password == password)
      then (l, false)
      else (record l { password = "" }, true)

  pub can_control_acq : ℤ → N → ServerLock N → Bool
  unfolding has_configuration_control_access is_password_locked
  can_control_acq now id l = not (is_password_locked l) && has_configuration_control_access now id l
