-- ===== src/GenericDevice/Stopping.antt =====
-- `stopReconnectMonitor`, with the monitor anywhere in its loop.
use opc_ua_modules.Base.{ℕ, ◌≡◌, refl, sym, ◌∙◌, subst, false, some, if_both, Bool-cases, inl, inr}
use opc_ua_modules.Client.Stack.{UaStack, TimerThread, has_succeeded}
use opc_ua_modules.Client.Connection.{is_connected}
use opc_ua_modules.Client.Lifecycle.{answer_to}
use opc_ua_modules.GenericDevice.Monitor.{
  reconnecting, Place, at_test, testing, attempting, sleeping, ended, escaped, Monitored,
  is_unrecoverable, attempted, monitor_place, monitor_step, stop_reconnect_monitor,
}
use opc_ua_modules.GenericDevice.Safety.{IsHandled, IsOutside, outcome_of, attempt-handled, step_at}
use opc_ua_modules.GenericDevice.GivingUp.{onwards, step_stopped}

attempted-stopped :
    {U T A : Type 0} (status : ℕ) (d : Monitored U T A)
    → d.reconnect_running ≡ false
    → let e = attempted (outcome_of status) d in
      (e.thread ≡ some sleeping) × (e.reconnect_running ≡ false)
unfolding attempted outcome_of
attempted-stopped status d r = elim (Bool-cases (has_succeeded status)) [
  | inl good ↦ rw good (refl, r)
  | inr bad ↦ rw bad (elim (Bool-cases (is_unrecoverable status)) [
    | inl refused ↦ rw refused (refl, refl)
    | inr other ↦ rw other (refl, r)
  ])
]

module _ {U T A : Type 0} (th : TimerThread T) where
  -- The monitor makes four steps.
  unfoldable pub four_steps :
      UaStack U → UaStack U → UaStack U → UaStack U → Monitored U T A → Monitored U T A
  four_steps a b c d m =
      monitor_step d th (monitor_step c th (monitor_step b th (monitor_step a th m)))

  -- The thread has ended, and was not told to run again.
  abbrev HasEnded : Monitored U T A → Type 0
  HasEnded m = (m.thread ≡ some ended) × (m.reconnect_running ≡ false)

  steps_outside :
      (ua : UaStack U) (p : Place) (m : Monitored U T A)
      → IsOutside (some p)
      → m.thread ≡ some p
      → m.reconnect_running ≡ false
      → ((monitor_step ua th m).thread ≡ some (onwards p))
        × ((monitor_step ua th m).reconnect_running ≡ false)
  steps_outside ua p m o t r =
      let same = step_stopped th ua p m t r o in
      subst (λ (x : Monitored U T A). (x.thread ≡ some (onwards p)) × (x.reconnect_running ≡ false))
        (sym same) (refl, r)

  steps_ended :
      (ua : UaStack U) (m : Monitored U T A) → HasEnded m → HasEnded (monitor_step ua th m)
  unfolding IsOutside onwards
  steps_ended ua m (t, r) = steps_outside ua ended m tt t r

  steps_at_test :
      (ua : UaStack U) (m : Monitored U T A)
      → m.thread ≡ some at_test
      → m.reconnect_running ≡ false
      → HasEnded (monitor_step ua th m)
  unfolding IsOutside onwards
  steps_at_test ua m t r = steps_outside ua at_test m tt t r

  steps_sleeping :
      (a b : UaStack U) (m : Monitored U T A)
      → m.thread ≡ some sleeping
      → m.reconnect_running ≡ false
      → HasEnded (monitor_step b th (monitor_step a th m))
  unfolding IsOutside onwards
  steps_sleeping a b m t r =
      let (t', r') = steps_outside a sleeping m tt t r in
      steps_at_test b (monitor_step a th m) t' r'

  steps_attempting :
      (a b c : UaStack U) (m : Monitored U T A)
      → IsHandled m
      → m.thread ≡ some attempting
      → m.reconnect_running ≡ false
      → HasEnded (monitor_step c th (monitor_step b th (monitor_step a th m)))
  unfolding monitor_place
  steps_attempting a b c m i t r =
      let (u, h) = i.handle in
      let (status, v) = answer_to a m.client (a.disconnect u) in
      let (client, _, same, _) = attempt-handled th a m u h in
      let asleep =
        subst (λ (x : Monitored U T A). (x.thread ≡ some sleeping) × (x.reconnect_running ≡ false))
          (sym (step_at th a attempting m t ∙ same))
          (attempted-stopped status (record m { client = client; connection_status = reconnecting })
            r) in
      steps_sleeping b c (monitor_step a th m) asleep.0 asleep.1

  steps_testing :
      (a b c d : UaStack U) (m : Monitored U T A)
      → IsHandled m
      → m.thread ≡ some testing
      → m.reconnect_running ≡ false
      → HasEnded (four_steps a b c d m)
  unfolding four_steps monitor_place
  steps_testing a b c d m i t r =
      let asleep = record m { thread = some sleeping } in
      let trying = record m { thread = some attempting } in
      subst
        (λ (x : Monitored U T A).
          HasEnded (monitor_step d th (monitor_step c th (monitor_step b th x))))
        (sym (step_at th a testing m t))
        (if_both
          (λ (x : Monitored U T A).
            HasEnded (monitor_step d th (monitor_step c th (monitor_step b th x))))
          (is_connected a m.client) asleep trying
          (steps_ended d (monitor_step c th (monitor_step b th asleep))
            (steps_sleeping b c asleep refl r))
          (steps_attempting b c d trying (record { handle = i.handle; place = λ e. cc }) refl r))

  -- Once it is stopped, a monitor whose loop no exception has left, and whose client has a client of
  -- the stack, is after four steps at the end of its loop and not running, wherever it stood, in the
  -- middle of a round or before its attempt too, and whatever the stacks answer.
  pub stop_reconnect_monitor_ends :
      (a b c d : UaStack U) (p : Place) (m : Monitored U T A)
      → IsHandled m
      → m.thread ≡ some p
      → let e = four_steps a b c d (stop_reconnect_monitor m) in
        (e.thread ≡ some ended) × (e.reconnect_running ≡ false)
  unfolding stop_reconnect_monitor four_steps
  stop_reconnect_monitor_ends a b c d p m i t = from p t
    where
      s : Monitored U T A
      s = record m { reconnect_running = false }

      from : (q : Place) → m.thread ≡ some q → HasEnded (four_steps a b c d s)
      from at_test h =
          steps_ended d _ (steps_ended c _ (steps_ended b _ (steps_at_test a s h refl)))
      from testing h =
          steps_testing a b c d s (record { handle = i.handle; place = i.place }) h refl
      from attempting h =
          steps_ended d _
            (steps_attempting a b c s (record { handle = i.handle; place = i.place }) h refl)
      from sleeping h = steps_ended d _ (steps_ended c _ (steps_sleeping a b s h refl))
      from ended h = steps_ended d _ (steps_ended c _ (steps_ended b _ (steps_ended a s (h, refl))))
      from escaped h = absurd (i.place h)
