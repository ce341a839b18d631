-- ===== src/Client/Configuration.antt =====
-- The settings of the client and those of the stack's client, through any history of operations.
use opc_ua_modules.Base.{
  ℕ, ◌≤◌, ◌<◌, ◌≡◌, ◌⊎◌, inl, inr, refl, Bool, Option, none, some, String, arith, ltb, Bool-cases,
  Option-cases, subst,
}
use opc_ua_modules.Client.Stack.{
  UaClient, UaStack, KeepsConfiguration, TimerThread, Outcome, succeeded, crashed, threw,
}
use opc_ua_modules.Client.Connection.{
  OpcUaClient, Operation, Built, built, not_configured, build, configure_client_config_defaults,
  connection_timeout_seconds, set_timeout, set_connectivity_check_interval, initialize_with,
  initialize, connect_handle, connected_with, connect, stop_iterate, disconnect_handle, clear,
  disconnect, execute_iterate_callback, is_anonymous, ◌and_then◌,
}

-- The calls of the stack keep the configuration, and a new client's channels live longer than the
-- least interval that the code sets.
pub record IsSane {U : Type 0} (ua : UaStack U) : Type 0 where
  pub life_time : connection_timeout_seconds ≤ ua.set_default.1.secure_channel_life_time
  pub connect : (url : String) (u : UaClient U) → KeepsConfiguration u (ua.connect url u).1
  pub connect_username :
      (url name password : String) (u : UaClient U)
      → KeepsConfiguration u (ua.connect_username url name password u).1
  pub disconnect : (u : UaClient U) → KeepsConfiguration u (ua.disconnect u)
  pub iterate : (ms : ℕ) (u : UaClient U) → KeepsConfiguration u (ua.run_iterate_timer_tasks ms u).1
  pub add : (ms k : ℕ) (u : UaClient U) → KeepsConfiguration u (ua.add_repeated_callback ms k u).2
  pub remove : (i : ℕ) (u : UaClient U) → KeepsConfiguration u (ua.remove_callback i u)

-- The timeout of the stack's client is the client's; its interval is the client's too, unless that is
-- longer than the channel lives, which the stack's client does not have.
pub record Configures {U : Type 0} (timeout_ms interval : ℕ) (u : UaClient U) : Type 0 where
  pub timeout : u.timeout ≡ timeout_ms
  pub bounded : u.connectivity_check_interval ≤ u.secure_channel_life_time
  pub interval_or :
      (u.connectivity_check_interval ≡ interval) ⊎ (u.secure_channel_life_time < interval)

abbrev pub OnClient : {U : Type 0} → ℕ → ℕ → Option (UaClient U) → Type 0
OnClient t i none = Unit
OnClient t i (some u) = Configures t i u

abbrev pub IsConfigured : {U T A : Type 0} → OpcUaClient U T A → Type 0
IsConfigured c = OnClient c.timeout_ms c.connectivity_check_interval c.uaclient

pub kept_Configures :
    {U : Type 0} (t i : ℕ) {u v : UaClient U}
    → KeepsConfiguration u v
    → Configures t i u
    → Configures t i v
kept_Configures t i k h = ground arith

build_bounded :
    {U : Type 0} (ua : UaStack U)
    → IsSane ua
    → (u : UaClient U) → build ua ≡ built u
    → u.connectivity_check_interval ≤ u.secure_channel_life_time
unfolding build configure_client_config_defaults
build_bounded ua s u e = ground (arith, s.life_time)

module _ {U T A : Type 0} where
  pub set_timeout-IsConfigured :
      (ms : ℕ) (c : OpcUaClient U T A) → IsConfigured c → IsConfigured (set_timeout ms c)
  unfolding set_timeout
  set_timeout-IsConfigured ms c h = elim (Option-cases c.uaclient) [
    | inl e ↦ rw e tt
    | inr (u, e) ↦
        let g = subst (OnClient c.timeout_ms c.connectivity_check_interval) e h in
        rw e (record { timeout = refl; bounded = g.bounded; interval_or = g.interval_or })
  ]

  -- Only the timeout and the bound are needed before.
  pub set_interval-IsConfigured :
      (interval old : ℕ) (c : OpcUaClient U T A)
      → OnClient c.timeout_ms old c.uaclient
      → IsConfigured (set_connectivity_check_interval interval c).1
  unfolding set_connectivity_check_interval
  set_interval-IsConfigured interval old c h = elim (Option-cases c.uaclient) [
    | inl e ↦ rw (e, set_connectivity_check_interval) (rw e tt)
    | inr (u, e) ↦
        let g : Configures c.timeout_ms old u = subst (OnClient c.timeout_ms old) e h in
        elim (Bool-cases (ltb u.secure_channel_life_time interval)) [
          | inl long ↦
              rw (e, set_connectivity_check_interval)
                (rw long (
                  rw e (record {
                    timeout = g.timeout;
                    bounded = g.bounded;
                    interval_or = inr (ground arith);
                  })))
          | inr short ↦
              rw (e, set_connectivity_check_interval)
                (rw short
                  (record { timeout = g.timeout; bounded = ground arith; interval_or = inl refl }))
        ]
  ]

  initialize_with-IsConfigured :
      (b : Built U) (c : OpcUaClient U T A)
      → ((u : UaClient U)
          → b ≡ built u
          → u.connectivity_check_interval ≤ u.secure_channel_life_time)
      → IsConfigured c
      → IsConfigured (initialize_with b c).1
  unfolding initialize_with set_timeout
  initialize_with-IsConfigured (not_configured status) c sane h = h
  initialize_with-IsConfigured (built u) c sane h =
      set_interval-IsConfigured c.connectivity_check_interval u.connectivity_check_interval
        (set_timeout c.timeout_ms (record c { uaclient = some u }))
        (record { timeout = refl; bounded = sane u refl; interval_or = inl refl })

  initialize-IsConfigured :
      (ua : UaStack U) (c : OpcUaClient U T A)
      → IsSane ua
      → IsConfigured c
      → IsConfigured (initialize ua c).1
  unfolding initialize
  initialize-IsConfigured ua c s h =
      initialize_with-IsConfigured (build ua) c (build_bounded ua s) h

  connected_with-IsConfigured :
      (status : ℕ) (u v : UaClient U) (c : OpcUaClient U T A)
      → KeepsConfiguration u v
      → Configures c.timeout_ms c.connectivity_check_interval u
      → IsConfigured (connected_with status v c).1
  unfolding connected_with
  connected_with-IsConfigured status u v c k g =
      kept_Configures c.timeout_ms c.connectivity_check_interval k g

  connect_handle-IsConfigured :
      (ua : UaStack U) (c : OpcUaClient U T A)
      → IsSane ua
      → IsConfigured c
      → IsConfigured (connect_handle ua c).1
  unfolding connect_handle
  connect_handle-IsConfigured ua c s h = elim (Option-cases c.uaclient) [
    | inl e ↦ rw (e, connect_handle) (rw e tt)
    | inr (u, e) ↦
        let g = subst (OnClient c.timeout_ms c.connectivity_check_interval) e h in
        rw (e, connect_handle)
          (elim (Bool-cases (is_anonymous c.endpoint)) [
            | inl anonymous ↦ rw anonymous (
                let (status, v) = ua.connect c.endpoint.url u in
                connected_with-IsConfigured status u v c (s.connect c.endpoint.url u) g)
            | inr named ↦ rw named (
                let e = c.endpoint in
                let (status, v) = ua.connect_username e.url e.username e.password u in
                connected_with-IsConfigured status u v c
                  (s.connect_username e.url e.username e.password u) g)
          ])
  ]

  and_then-IsConfigured :
      (r : Outcome × OpcUaClient U T A) (next : Operation U T A)
      → ((c : OpcUaClient U T A) → IsConfigured c → IsConfigured (next c).1)
      → IsConfigured r.1
      → IsConfigured (r and_then next).1
  and_then-IsConfigured (succeeded, c) next keeps h = keeps c h
  and_then-IsConfigured (crashed, c) next keeps h = h
  and_then-IsConfigured (threw e, c) next keeps h = h

  pub connect-IsConfigured :
      (ua : UaStack U) (c : OpcUaClient U T A)
      → IsSane ua
      → IsConfigured c
      → IsConfigured (connect ua c).1
  unfolding connect
  connect-IsConfigured ua c s h = elim (Option-cases c.uaclient) [
    | inl e ↦
        rw (e, connect)
          (and_then-IsConfigured (initialize ua c) (connect_handle ua)
            (λ d g. connect_handle-IsConfigured ua d s g) (initialize-IsConfigured ua c s h))
    | inr (u, e) ↦ rw (e, connect) (connect_handle-IsConfigured ua c s h)
  ]

  pub disconnect-IsConfigured :
      (ua : UaStack U) (th : TimerThread T) (do_clear : Bool) (c : OpcUaClient U T A)
      → IsSane ua
      → IsConfigured c
      → IsConfigured (disconnect ua th do_clear c)
  unfolding disconnect disconnect_handle stop_iterate clear
  disconnect-IsConfigured ua th do_clear c s h = elim (Option-cases c.uaclient) [
    | inl e ↦ rw (e, disconnect) tt
    | inr (u, e) ↦
        let g = subst (OnClient c.timeout_ms c.connectivity_check_interval) e h in
        rw (e, disconnect)
          (elim (Bool-cases do_clear) [
            | inl cleared ↦ rw cleared tt
            | inr left ↦
                rw left
                  (kept_Configures c.timeout_ms c.connectivity_check_interval (s.disconnect u) g)
          ])
  ]

  pub execute_iterate_callback-IsConfigured :
      (ua : UaStack U) (th : TimerThread T) (c : OpcUaClient U T A)
      → IsSane ua
      → IsConfigured c
      → IsConfigured (execute_iterate_callback ua th c).1
  unfolding execute_iterate_callback
  execute_iterate_callback-IsConfigured ua th c s h = elim (Option-cases c.uaclient) [
    | inl e ↦ rw (e, execute_iterate_callback) (rw e tt)
    | inr (u, e) ↦
        let g = subst (OnClient c.timeout_ms c.connectivity_check_interval) e h in
        rw (e, execute_iterate_callback)
          (kept_Configures c.timeout_ms c.connectivity_check_interval
            (s.iterate c.iterate_timeout u) g)
  ]
