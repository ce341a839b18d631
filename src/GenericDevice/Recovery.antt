-- ===== src/GenericDevice/Recovery.antt =====
-- From a lost connection to items that are called again.
use opc_ua_modules.Base.{
  ℕ, ◌≡◌, refl, sym, ap, ◌∙◌, subst, true, false, none, some, List, [], ◌∷◌, map, arith, Bool-cases,
  inl, inr,
}
use opc_ua_modules.Client.Stack.{UaClient, UaStack, TimerThread, has_succeeded}
use opc_ua_modules.Client.Connection.{OpcUaClient, is_connected}
use opc_ua_modules.Client.Lifecycle.{answer_to}
use opc_ua_modules.Scheduler.{Scheduler, Env, Phase, on_reconnected}
use opc_ua_modules.Scheduler.Reconnecting.{IsSampler, TellsAll, on_reconnected-TellsAll}
use opc_ua_modules.GenericDevice.Monitor.{
  ConnectionStatus, connected, reconnecting, at_test, attempting, sleeping, Monitored,
  is_unrecoverable, attempted, monitor_place, monitor_step,
}
use opc_ua_modules.GenericDevice.Safety.{outcome_of, attempt-handled, tried, tried-attempt}
use opc_ua_modules.GenericDevice.GivingUp.{RefusesUser}

-- A status that refuses, but not for the user.
pub record IsTemporary (status : ℕ) : Type 0 where
  pub failed : has_succeeded status ≡ false
  pub recoverable : ¬ RefusesUser status

-- What the server answers to the next attempt.
unfoldable pub next_answer : {U T A : Type 0} → UaStack U → OpcUaClient U T A → ℕ
next_answer ua c = elim c.uaclient [ none ↦ 0 | some u ↦ (answer_to ua c (ua.disconnect u)).0 ]

refusing : (status : ℕ) → is_unrecoverable status ≡ true → RefusesUser status
unfolding is_unrecoverable
refusing status h = ground arith

not_refusing : (status : ℕ) → ¬ RefusesUser status → is_unrecoverable status ≡ false
unfolding is_unrecoverable
not_refusing status n = elim (Bool-cases (is_unrecoverable status)) [
  | inl h ↦ absurd (n (refusing status h))
  | inr h ↦ h
]

attempted-temporary :
    {U T A : Type 0} (status : ℕ) (d : Monitored U T A)
    → IsTemporary status
    → attempted (outcome_of status) d ≡ record d { thread = some sleeping }
unfolding attempted outcome_of is_unrecoverable
attempted-temporary status d t =
    let n : is_unrecoverable status ≡ false = not_refusing status t.recoverable in ground arith

attempted-accepted :
    {U T A : Type 0} (status : ℕ) (d : Monitored U T A)
    → has_succeeded status ≡ true
    → attempted (outcome_of status) d ≡ record d {
      connection_status = connected;
      sampler = on_reconnected d.sampler;
      thread = some sleeping;
    }
unfolding attempted outcome_of
attempted-accepted status d h = ground arith

-- The monitor is about to test the connection.
record IsWatching {U T A : Type 0} (sampler : Scheduler) (d : Monitored U T A) : Type 0 where
  handle : (u : UaClient U) × (d.client.uaclient ≡ some u)
  at : d.thread ≡ some at_test
  running : d.reconnect_running ≡ true
  same : d.sampler ≡ sampler

module _ {U T A : Type 0} (th : TimerThread T) where
  -- The two tests, the attempt if there is one, and the sleep.
  unfoldable pub round : UaStack U → Monitored U T A → Monitored U T A
  round ua d = monitor_step ua th (tried th ua d)

  unfoldable pub rounds : List (UaStack U) → Monitored U T A → Monitored U T A
  unfolding round
  rounds [] d = d
  rounds (ua ∷ uas) d = rounds uas (round ua d)

  -- The connection status after each round.
  unfoldable pub statuses : List (UaStack U) → Monitored U T A → List ConnectionStatus
  statuses [] d = []
  statuses (ua ∷ uas) d = (round ua d).connection_status ∷ statuses uas (round ua d)

  -- In each round the client is found disconnected, and the server refuses for the time being.
  unfoldable pub IsDown : List (UaStack U) → Monitored U T A → Type 0
  unfolding round
  IsDown [] d = Unit
  IsDown (ua ∷ uas) d =
      (is_connected ua d.client ≡ false)
      × IsTemporary (next_answer ua d.client)
      × IsDown uas (round ua d)

  next_answer-some :
      (ua : UaStack U) (c : OpcUaClient U T A) (u : UaClient U)
      → c.uaclient ≡ some u
      → next_answer ua c ≡ (answer_to ua c (ua.disconnect u)).0
  unfolding next_answer answer_to
  next_answer-some ua c u h = rw (h, next_answer) refl

  attempt-temporary :
      (ua : UaStack U) (s : Scheduler) (d : Monitored U T A)
      → IsWatching s d
      → is_connected ua d.client ≡ false
      → IsTemporary (next_answer ua d.client)
      → (c : OpcUaClient U T A) × ((v : UaClient U) × (c.uaclient ≡ some v))
        × (tried th ua d
            ≡ record d { client = c; connection_status = reconnecting; thread = some sleeping })
  attempt-temporary ua s d w down t =
      let (u, h) = w.handle in
      let (status, v) = answer_to ua d.client (ua.disconnect u) in
      let (c, some_v, same, runs) =
        attempt-handled th ua (record d { thread = some attempting }) u h in
      let refused : IsTemporary status = subst IsTemporary (next_answer-some ua d.client u h) t in
      (
        c,
        (v, some_v),
        tried-attempt th ua d w.at w.running down
            ∙ same
            ∙ attempted-temporary status
                (record d {
                  client = c;
                  connection_status = reconnecting;
                  thread = some attempting;
                })
                refused,
      )

  round-down :
      (ua : UaStack U) (s : Scheduler) (d : Monitored U T A)
      → IsWatching s d
      → is_connected ua d.client ≡ false
      → IsTemporary (next_answer ua d.client)
      → IsWatching s (round ua d) × ((round ua d).connection_status ≡ reconnecting)
  unfolding round monitor_step monitor_place
  round-down ua s d w down t =
      let (c, handle, same) = attempt-temporary ua s d w down t in
      subst
        (λ (x : Monitored U T A).
          IsWatching s (monitor_step ua th x)
          × ((monitor_step ua th x).connection_status ≡ reconnecting))
        (sym same) (record { handle = handle; at = refl; running = w.running; same = w.same }, refl)

  rounds-down :
      (uas : List (UaStack U)) (s : Scheduler) (d : Monitored U T A)
      → IsWatching s d
      → IsDown uas d
      → IsWatching s (rounds uas d) × (statuses uas d ≡ map (λ ua. reconnecting) uas)
  unfolding rounds statuses IsDown
  rounds-down [] s d w down = (w, refl)
  rounds-down (ua ∷ uas) s d w down =
      let (next, status) = round-down ua s d w down.0 down.1 in
      let (last, rest) = rounds-down uas s (round ua d) next down.2 in
      (last, ap (λ x. x ∷ statuses uas (round ua d)) status ∙ ap (λ l. reconnecting ∷ l) rest)

  accepted :
      (ua : UaStack U) (s : Scheduler) (d : Monitored U T A)
      → IsWatching s d
      → is_connected ua d.client ≡ false
      → has_succeeded (next_answer ua d.client) ≡ true
      → let e = tried th ua d in
        (e.connection_status ≡ connected)
        × (e.sampler ≡ on_reconnected s)
        × (e.reconnect_running ≡ true)
        × (th.get_started e.client.iterate_thread ≡ true)
  accepted ua s d w down good =
      let (u, h) = w.handle in
      let (status, v) = answer_to ua d.client (ua.disconnect u) in
      let (c, some_v, same, runs) =
        attempt-handled th ua (record d { thread = some attempting }) u h in
      let agreed : has_succeeded status ≡ true =
        subst (λ (n : ℕ). has_succeeded n ≡ true) (next_answer-some ua d.client u h) good in
      subst
        (λ (e : Monitored U T A).
          (e.connection_status ≡ connected)
          × (e.sampler ≡ on_reconnected s)
          × (e.reconnect_running ≡ true)
          × (th.get_started e.client.iterate_thread ≡ true))
        (sym (
          tried-attempt th ua d w.at w.running down
          ∙ same
          ∙ attempted-accepted status
              (record d { client = c; connection_status = reconnecting; thread = some attempting })
              agreed))
        (refl, ap on_reconnected w.same, w.running, runs agreed)

  -- However often the server refuses, as long as it does not refuse the user, the monitor of a device
  -- that lost its connection tries again: the status is "Reconnecting" after each refusal, and in the
  -- round in which the server accepts it becomes "Connected", the client iterates, and the monitor
  -- watches on. A sampling thread that runs, is then left alone with the client connected, and is not
  -- in the middle of another revalidation comes within three steps, from a wait too, to calling
  -- `onConnectionRestored` on exactly the registered items that have no owner or one that is alive, in
  -- their order.
  pub recovers :
      (uas : List (UaStack U)) (ua : UaStack U) (env : Env) (p : Phase) (d : Monitored U T A)
      (u : UaClient U)
      → d.client.uaclient ≡ some u
      → d.thread ≡ some at_test
      → d.reconnect_running ≡ true
      → d.sampler.running ≡ true
      → d.sampler.thread ≡ some p
      → IsSampler p
      → env.connected ≡ true
      → IsDown uas d
      → is_connected ua (rounds uas d).client ≡ false
      → has_succeeded (next_answer ua (rounds uas d).client) ≡ true
      → let e = tried th ua (rounds uas d) in
        (statuses uas d ≡ map (λ ua. reconnecting) uas)
        × (e.connection_status ≡ connected)
        × (th.get_started e.client.iterate_thread ≡ true)
        × (e.reconnect_running ≡ true)
        × TellsAll env d.sampler.items e.sampler
  recovers uas ua env p d u h at on sampling place sampler_place online down found good =
      let (watching, seen) =
        rounds-down uas d.sampler d (record { handle = (u, h); at = at; running = on; same = refl })
          down in
      let (status, sampler, running, iterates) =
        accepted ua d.sampler (rounds uas d) watching found good in
      (
        seen,
        status,
        iterates,
        running,
        subst (TellsAll env d.sampler.items) (sym sampler)
            (on_reconnected-TellsAll env d.sampler p online sampling place sampler_place),
      )
