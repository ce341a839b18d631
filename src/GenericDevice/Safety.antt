-- ===== src/GenericDevice/Safety.antt =====
-- What no history of the device does: end the program by an exception of the monitor, or try again
-- once the server has refused the user.
use opc_ua_modules.Base.{
  ℕ, ◌≡◌, ◌≢◌, refl, sym, ap, ◌∙◌, Bool, true, false, Option, none, some, List, [], ◌∷◌, arith,
  if◌then◌else◌, if_both, if_true, if_false, Bool-cases, Option-cases, inl, inr, subst,
}
use opc_ua_modules.Client.Stack.{
  UaClient, UaStack, TimerThread, Outcome, succeeded, threw, opc_ua_exception, has_succeeded,
}
use opc_ua_modules.Client.Connection.{
  OpcUaClient, is_connected, disconnect, disconnect_handle, stop_iterate, execute_iterate_callback,
}
use opc_ua_modules.Client.Lifecycle.{answer_to, reconnect_lem}
use opc_ua_modules.Scheduler.{Env, step}
use opc_ua_modules.GenericDevice.Monitor.{
  reconnecting, unrecoverable, Place, at_test, testing, attempting, sleeping, ended, escaped,
  Monitored, is_unrecoverable, attempted, attempt, monitor_place, monitor_step,
  stop_reconnect_monitor, join_reconnect_monitor, removed,
}

-- A step of the monitor, of those who stop it, of the iteration thread, of the sampling thread, or
-- the removal.
pub data Event : Type 0 where
  monitors stops joins iterates removes : Event
  samples : Env → Event

abbrev pub is_other : Event → Bool
is_other monitors = false
is_other stops = true
is_other joins = true
is_other iterates = true
is_other removes = true
is_other (samples env) = true

-- The thread has not been left by an exception, and the client has a client of the stack.
pub record IsHandled {U T A : Type 0} (d : Monitored U T A) : Type 0 where
  pub handle : (u : UaClient U) × (d.client.uaclient ≡ some u)
  pub place : d.thread ≢ some escaped

-- The monitor is not between the test of its loop and the end of its attempt.
unfoldable pub IsOutside : Option Place → Type 0
IsOutside none = Unit
IsOutside (some at_test) = Unit
IsOutside (some testing) = ⊥
IsOutside (some attempting) = ⊥
IsOutside (some sleeping) = Unit
IsOutside (some ended) = Unit
IsOutside (some escaped) = Unit

pub record HasGivenUp {U T A : Type 0} (d : Monitored U T A) : Type 0 where
  pub outside : IsOutside d.thread
  pub status : d.connection_status ≡ unrecoverable
  pub running : d.reconnect_running ≡ false

unfoldable pub outcome_of : ℕ → Outcome
outcome_of status = if has_succeeded status then succeeded else threw (opc_ua_exception status)

attempted-IsHandled :
    {U T A : Type 0} (status : ℕ) (d : Monitored U T A) (u : UaClient U)
    → d.client.uaclient ≡ some u
    → IsHandled (attempted (outcome_of status) d)
unfolding attempted outcome_of
attempted-IsHandled status d u h = elim (Bool-cases (has_succeeded status)) [
  | inl good ↦ rw good (record { handle = (u, h); place = λ e. cc })
  | inr bad ↦ rw bad (elim (Bool-cases (is_unrecoverable status)) [
    | inl refused ↦ rw refused (record { handle = (u, h); place = λ e. cc })
    | inr other ↦ rw other (record { handle = (u, h); place = λ e. cc })
  ])
]

module _ {U T A : Type 0} (th : TimerThread T) where
  unfoldable pub apply_event : UaStack U → Event → Monitored U T A → Monitored U T A
  apply_event ua monitors d = monitor_step ua th d
  apply_event ua stops d = stop_reconnect_monitor d
  apply_event ua joins d = join_reconnect_monitor d
  apply_event ua iterates d = record d { client = (execute_iterate_callback ua th d.client).1 }
  apply_event ua removes d = removed ua th d
  apply_event ua (samples env) d = record d { sampler = step env d.sampler }

  unfoldable pub run_events : List (UaStack U × Event) → Monitored U T A → Monitored U T A
  run_events [] d = d
  run_events ((ua, e) ∷ rest) d = run_events rest (apply_event ua e d)

  -- With a client of the stack an attempt ends with the server's answer.
  pub attempt-handled :
      (ua : UaStack U) (d : Monitored U T A) (u : UaClient U)
      → d.client.uaclient ≡ some u
      → let (status, v) = answer_to ua d.client (ua.disconnect u) in
        (c : OpcUaClient U T A) × (c.uaclient ≡ some v)
        × (attempt ua th d
            ≡ attempted
                (outcome_of status)
                (record d { client = c; connection_status = reconnecting }))
        × (has_succeeded status ≡ true → th.get_started c.iterate_thread ≡ true)
  unfolding attempt outcome_of
  attempt-handled ua d u h =
      let (status, v) = answer_to ua d.client (ua.disconnect u) in
      let call = reconnect_lem ua th d.client u h in
      let finish = λ (r : Outcome × OpcUaClient U T A).
        attempted r.0 (record d { client = r.1; connection_status = reconnecting }) in
      elim (Bool-cases (has_succeeded status)) [
        | inl good ↦
            let c = record d.client {
              uaclient = some v;
              iterate_thread = th.start (th.set_interval_ms 20 (th.stop d.client.iterate_thread));
              iterate_timeout = 0;
            } in
            (c, refl, ap finish (rw good at call) ∙ rw good refl, λ g. th.started _)
        | inr bad ↦
            let c = record d.client {
              uaclient = some v;
              iterate_thread = th.stop d.client.iterate_thread;
            } in
            (c, refl, ap finish (rw bad at call) ∙ rw bad refl, λ g. cc)
      ]

  pub step_at :
      (ua : UaStack U) (p : Place) (d : Monitored U T A)
      → d.thread ≡ some p
      → monitor_step ua th d ≡ monitor_place ua th p d
  unfolding monitor_step
  step_at ua p d at = ground arith

  pub step_attempts :
      (ua : UaStack U) (d : Monitored U T A)
      → d.thread ≡ some attempting
      → monitor_step ua th d ≡ attempt ua th d
  unfolding monitor_place
  step_attempts ua d at = step_at ua attempting d at

  -- The two tests, where the monitor runs and the client is disconnected, and the attempt.
  unfoldable pub tried : UaStack U → Monitored U T A → Monitored U T A
  tried ua d = monitor_step ua th (monitor_step ua th (monitor_step ua th d))

  pub tried-attempt :
      (ua : UaStack U) (d : Monitored U T A)
      → d.thread ≡ some at_test
      → d.reconnect_running ≡ true
      → is_connected ua d.client ≡ false
      → tried ua d ≡ attempt ua th (record d { thread = some attempting })
  unfolding tried monitor_place
  tried-attempt ua d at on down =
      let to_testing : monitor_step ua th d ≡ record d { thread = some testing } =
        step_at ua at_test d at
        ∙ if_true d.reconnect_running (record d { thread = some testing })
            (record d { thread = some ended }) on in
      let to_attempting : monitor_step ua th (record d { thread = some testing })
          ≡ record d { thread = some attempting } =
        step_at ua testing (record d { thread = some testing }) refl
        ∙ if_false (is_connected ua d.client) (record d { thread = some sleeping })
            (record d { thread = some attempting }) down in
      ap (λ x. monitor_step ua th (monitor_step ua th x)) to_testing
      ∙ ap (monitor_step ua th) to_attempting
      ∙ step_attempts ua (record d { thread = some attempting }) refl

  pub attempt-IsHandled :
      (ua : UaStack U) (d : Monitored U T A) → IsHandled d → IsHandled (attempt ua th d)
  attempt-IsHandled ua d i =
      let (u, h) = i.handle in
      let (status, v) = answer_to ua d.client (ua.disconnect u) in
      let (c, some_v, same, _) = attempt-handled ua d u h in
      subst IsHandled (sym same) (
        attempted-IsHandled status (record d { client = c; connection_status = reconnecting }) v
          some_v)

  place-IsHandled :
      (ua : UaStack U) (p : Place) (d : Monitored U T A)
      → p ≢ escaped
      → IsHandled d
      → IsHandled (monitor_place ua th p d)
  unfolding monitor_place
  place-IsHandled ua at_test d n i =
      if_both IsHandled d.reconnect_running (record d { thread = some testing })
        (record d { thread = some ended }) (record { handle = i.handle; place = λ e. cc })
        (record { handle = i.handle; place = λ e. cc })
  place-IsHandled ua testing d n i =
      if_both IsHandled (is_connected ua d.client) (record d { thread = some sleeping })
        (record d { thread = some attempting }) (record { handle = i.handle; place = λ e. cc })
        (record { handle = i.handle; place = λ e. cc })
  place-IsHandled ua attempting d n i = attempt-IsHandled ua d i
  place-IsHandled ua sleeping d n i = record { handle = i.handle; place = λ e. cc }
  place-IsHandled ua ended d n i = i
  place-IsHandled ua escaped d n i = absurd (n refl)

  monitor_step-IsHandled :
      (ua : UaStack U) (d : Monitored U T A) → IsHandled d → IsHandled (monitor_step ua th d)
  unfolding monitor_step
  monitor_step-IsHandled ua d i = elim (Option-cases d.thread) [
    | inl h ↦ rw (h, monitor_step) i
    | inr (p, h) ↦ rw (h, monitor_step) (place-IsHandled ua p d (λ e. i.place (h ∙ ap some e)) i)
  ]

  disconnect-handle :
      (ua : UaStack U) (c : OpcUaClient U T A)
      → ((u : UaClient U) × (c.uaclient ≡ some u))
      → (u : UaClient U) × ((disconnect ua th false c).uaclient ≡ some u)
  unfolding disconnect disconnect_handle stop_iterate
  disconnect-handle ua c (u, h) = (ua.disconnect u, ground arith)

  iterate-handle :
      (ua : UaStack U) (c : OpcUaClient U T A)
      → ((u : UaClient U) × (c.uaclient ≡ some u))
      → (u : UaClient U) × ((execute_iterate_callback ua th c).1.uaclient ≡ some u)
  unfolding execute_iterate_callback
  iterate-handle ua c (u, h) =
      ((ua.run_iterate_timer_tasks c.iterate_timeout u).1, rw (h, execute_iterate_callback) refl)

  join-IsHandled : (d : Monitored U T A) → IsHandled d → IsHandled (join_reconnect_monitor d)
  unfolding join_reconnect_monitor
  join-IsHandled d i = go d.thread refl
    where
      go : (t : Option Place) → d.thread ≡ t → IsHandled (join_reconnect_monitor d)
      go none h = rw (h, join_reconnect_monitor) i
      go (some at_test) h = rw (h, join_reconnect_monitor) i
      go (some sleeping) h = rw (h, join_reconnect_monitor) i
      go (some testing) h = rw (h, join_reconnect_monitor) i
      go (some attempting) h = rw (h, join_reconnect_monitor) i
      go (some escaped) h = rw (h, join_reconnect_monitor) i
      go (some ended) h =
          rw (h, join_reconnect_monitor) (record { handle = i.handle; place = λ e. cc })

  apply_event-IsHandled :
      (ua : UaStack U) (e : Event) (d : Monitored U T A)
      → IsHandled d
      → IsHandled (apply_event ua e d)
  unfolding apply_event stop_reconnect_monitor removed
  apply_event-IsHandled ua monitors d i = monitor_step-IsHandled ua d i
  apply_event-IsHandled ua stops d i = record { handle = i.handle; place = i.place }
  apply_event-IsHandled ua joins d i = join-IsHandled d i
  apply_event-IsHandled ua iterates d i = record {
    handle = iterate-handle ua d.client i.handle;
    place = i.place;
  }
  apply_event-IsHandled ua removes d i = record {
    handle = disconnect-handle ua d.client i.handle;
    place = i.place;
  }
  apply_event-IsHandled ua (samples env) d i = record { handle = i.handle; place = i.place }

  -- From a device whose client has a client of the stack, through any history of the monitor's steps,
  -- of stops, rounds of the iteration, samples and the removal, and whatever the stacks answer, no
  -- exception leaves the monitor's loop: its attempts throw only what its handler catches. The client
  -- keeps a client of the stack.
  pub run_events-IsHandled :
      (es : List (UaStack U × Event)) (d : Monitored U T A)
      → IsHandled d
      → IsHandled (run_events es d)
  unfolding run_events
  run_events-IsHandled [] d i = i
  run_events-IsHandled ((ua, e) ∷ rest) d i =
      run_events-IsHandled rest (apply_event ua e d) (apply_event-IsHandled ua e d i)
