-- ===== src/GenericDevice/GivingUp.antt =====
-- The server refuses the user: the monitor gives up.
use opc_ua_modules.Base.{
  ℕ, ◌≡◌, refl, if_false, sym, ap, ◌∙◌, subst, true, false, Option, none, some, List, [], ◌∷◌,
  arith, Option-cases, inl, inr, ◌⊎◌,
}
use opc_ua_modules.Client.Stack.{UaClient, UaStack, TimerThread, has_succeeded}
use opc_ua_modules.Client.Connection.{OpcUaClient, disconnect, execute_iterate_callback}
use opc_ua_modules.Client.Lifecycle.{answer_to}
use opc_ua_modules.GenericDevice.Monitor.{
  reconnecting, unrecoverable, Place, at_test, testing, attempting, sleeping, ended, escaped,
  Monitored, is_unrecoverable, attempted, monitor_place, monitor_step, stop_reconnect_monitor,
  join_reconnect_monitor, removed,
}
use opc_ua_modules.GenericDevice.Safety.{
  Event, monitors, stops, joins, iterates, removes, samples, HasGivenUp, IsOutside, apply_event,
  run_events, outcome_of, attempt-handled, step_attempts,
}

-- The status codes with which the server refuses the user: BadUserAccessDenied and
-- BadIdentityTokenInvalid.
abbrev pub RefusesUser : ℕ → Type 0
RefusesUser status = (status ≡ 0x801F0000) ⊎ (status ≡ 0x80200000)

-- Where a monitor that is not running stands after its next step.
unfoldable pub onwards : Place → Place
onwards at_test = ended
onwards testing = sleeping
onwards attempting = sleeping
onwards sleeping = at_test
onwards ended = ended
onwards escaped = escaped

onwards-IsOutside : (p : Place) → IsOutside (some p) → IsOutside (some (onwards p))
unfolding onwards IsOutside
onwards-IsOutside at_test o = tt
onwards-IsOutside testing o = tt
onwards-IsOutside attempting o = tt
onwards-IsOutside sleeping o = tt
onwards-IsOutside ended o = tt
onwards-IsOutside escaped o = tt

module _ {U T A : Type 0} (th : TimerThread T) where
  -- What the others do with the client.
  unfoldable pub without_monitor : List (UaStack U × Event) → OpcUaClient U T A → OpcUaClient U T A
  without_monitor [] c = c
  without_monitor ((ua, monitors) ∷ rest) c = without_monitor rest c
  without_monitor ((ua, stops) ∷ rest) c = without_monitor rest c
  without_monitor ((ua, joins) ∷ rest) c = without_monitor rest c
  without_monitor ((ua, samples env) ∷ rest) c = without_monitor rest c
  without_monitor ((ua, iterates) ∷ rest) c =
      without_monitor rest (execute_iterate_callback ua th c).1
  without_monitor ((ua, removes) ∷ rest) c = without_monitor rest (disconnect ua th false c)

  place_stopped :
      (ua : UaStack U) (p : Place) (d : Monitored U T A)
      → d.thread ≡ some p
      → d.reconnect_running ≡ false
      → IsOutside (some p)
      → monitor_place ua th p d ≡ record d { thread = some (onwards p) }
  unfolding monitor_place onwards IsOutside
  place_stopped ua at_test d e h o =
      if_false d.reconnect_running (record d { thread = some testing })
        (record d { thread = some ended }) h
  place_stopped ua testing d e h o = absurd o
  place_stopped ua attempting d e h o = absurd o
  place_stopped ua sleeping d e h o = refl
  place_stopped ua ended d e h o = ap (λ (t : Option Place). record d { thread = t }) e
  place_stopped ua escaped d e h o = ap (λ (t : Option Place). record d { thread = t }) e

  -- A monitor that is not running only moves to the end of its loop.
  pub step_stopped :
      (ua : UaStack U) (p : Place) (d : Monitored U T A)
      → d.thread ≡ some p
      → d.reconnect_running ≡ false
      → IsOutside (some p)
      → monitor_step ua th d ≡ record d { thread = some (onwards p) }
  unfolding monitor_step
  step_stopped ua p d e h o = rw (e, monitor_step) (place_stopped ua p d e h o)

  monitor_step-given_up :
      (ua : UaStack U) (d : Monitored U T A)
      → HasGivenUp d
      → HasGivenUp (monitor_step ua th d) × ((monitor_step ua th d).client ≡ d.client)
  unfolding monitor_step
  monitor_step-given_up ua d g = elim (Option-cases d.thread) [
    | inl e ↦ rw (e, monitor_step) (g, refl)
    | inr (p, e) ↦
        subst (λ (x : Monitored U T A). HasGivenUp x × (x.client ≡ d.client))
          (sym (step_stopped ua p d e g.running (subst IsOutside e g.outside)))
          (
            record {
              status = g.status;
              running = g.running;
              outside = onwards-IsOutside p (subst IsOutside e g.outside);
            },
            refl,
          )
  ]

  join-given_up :
      (d : Monitored U T A)
      → HasGivenUp d
      → HasGivenUp (join_reconnect_monitor d) × ((join_reconnect_monitor d).client ≡ d.client)
  unfolding join_reconnect_monitor IsOutside
  join-given_up d g = go d.thread refl
    where
      go :
          (t : Option Place)
          → d.thread ≡ t
          → HasGivenUp (join_reconnect_monitor d) × ((join_reconnect_monitor d).client ≡ d.client)
      go none h = rw (h, join_reconnect_monitor) (g, refl)
      go (some at_test) h = rw (h, join_reconnect_monitor) (g, refl)
      go (some sleeping) h = rw (h, join_reconnect_monitor) (g, refl)
      go (some testing) h = rw (h, join_reconnect_monitor) (g, refl)
      go (some attempting) h = rw (h, join_reconnect_monitor) (g, refl)
      go (some escaped) h = rw (h, join_reconnect_monitor) (g, refl)
      go (some ended) h =
          rw (h, join_reconnect_monitor)
            (record { status = g.status; running = g.running; outside = tt }, refl)

  run_events-given_up :
      (es : List (UaStack U × Event)) (d : Monitored U T A)
      → HasGivenUp d
      → HasGivenUp (run_events th es d)
        × ((run_events th es d).client ≡ without_monitor es d.client)
  unfolding run_events apply_event without_monitor stop_reconnect_monitor removed
  run_events-given_up [] d g = (g, refl)
  run_events-given_up ((ua, monitors) ∷ rest) d g =
      let (kept, same) = monitor_step-given_up ua d g in
      let (later, done) = run_events-given_up rest (monitor_step ua th d) kept in
      (later, done ∙ ap (without_monitor rest) same)
  run_events-given_up ((ua, joins) ∷ rest) d g =
      let (kept, same) = join-given_up d g in
      let (later, done) = run_events-given_up rest (join_reconnect_monitor d) kept in
      (later, done ∙ ap (without_monitor rest) same)
  run_events-given_up ((ua, stops) ∷ rest) d g =
      run_events-given_up rest (apply_event th ua stops d)
        (record { status = g.status; running = refl; outside = g.outside })
  run_events-given_up ((ua, samples env) ∷ rest) d g =
      run_events-given_up rest (apply_event th ua (samples env) d)
        (record { status = g.status; running = g.running; outside = g.outside })
  run_events-given_up ((ua, iterates) ∷ rest) d g =
      run_events-given_up rest (apply_event th ua iterates d)
        (record { status = g.status; running = g.running; outside = g.outside })
  run_events-given_up ((ua, removes) ∷ rest) d g =
      run_events-given_up rest (apply_event th ua removes d)
        (record { status = g.status; running = g.running; outside = g.outside })

  attempted-refused :
      (status : ℕ) (d : Monitored U T A)
      → RefusesUser status
      → HasGivenUp (attempted (outcome_of status) d)
        × ((attempted (outcome_of status) d).client ≡ d.client)
  unfolding attempted outcome_of is_unrecoverable IsOutside
  attempted-refused status d r =
      let bad : has_succeeded status ≡ false = ground arith in
      let h : is_unrecoverable status ≡ true = ground arith in
      rw bad (rw h (record { status = refl; running = refl; outside = tt }, refl))

  -- Once the server has refused the user, as BadUserAccessDenied or BadIdentityTokenInvalid, to an
  -- attempt of the monitor, the connection status is "Unrecoverable" through any history of what
  -- follows, whatever the stacks answer, and the monitor makes no further attempt: to the client only
  -- happens what the others do with it.
  pub refused_is_final :
      (ua : UaStack U) (d : Monitored U T A) (u : UaClient U) (es : List (UaStack U × Event))
      → d.client.uaclient ≡ some u
      → d.thread ≡ some attempting
      → RefusesUser (answer_to ua d.client (ua.disconnect u)).0
      → let e = monitor_step ua th d in
        ((run_events th es e).connection_status ≡ unrecoverable)
        × ((run_events th es e).client ≡ without_monitor es e.client)
  refused_is_final ua d u es h at refused =
      let e = monitor_step ua th d in
      let status = (answer_to ua d.client (ua.disconnect u)).0 in
      let (c, some_v, same, _) = attempt-handled th ua d u h in
      let after =
        attempted-refused status (record d { client = c; connection_status = reconnecting })
          refused in
      let given_up : HasGivenUp e =
        subst HasGivenUp (sym (step_attempts th ua d at ∙ same)) after.0 in
      let (kept, same) = run_events-given_up es e given_up in (kept.status, same)
