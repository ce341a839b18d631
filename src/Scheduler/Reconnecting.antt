-- ===== src/Scheduler/Reconnecting.antt =====
-- From `onReconnected`, wherever the thread stands, to the items that it tells.
use opc_ua_modules.Base.{
  ℕ, suc, ◌≤◌, ◌≡◌, refl, sym, subst, true, false, some, List, [], ◌∷◌, arith, keep, map, length,
}
use opc_ua_modules.Scheduler.Entries.{Entry}
use opc_ua_modules.Scheduler.{
  Scheduler, Env, Phase, Wait, for_connection, for_items, until_due, at_head, locking, ended,
  waiting, in_call, process_sample, connection_restored, is_waiting, has_ended, wake, thread_step,
  step, on_reconnected, notify_all,
}
use opc_ua_modules.Scheduler.Revalidation.{restored, is_callable, revalidation_restores}
use opc_ua_modules.Scheduler.Backlog.{iterate, step_at_head}

-- The thread has not ended, and is not in the middle of another revalidation.
unfoldable pub IsSampler : Phase → Type 0
IsSampler at_head = Unit
IsSampler locking = Unit
IsSampler ended = ⊥
IsSampler (waiting w) = Unit
IsSampler (in_call i process_sample pending) = Unit
IsSampler (in_call i connection_restored pending) = ⊥

-- Within three steps the thread begins to call exactly these items, in this order.
abbrev pub TellsAll : Env → List Entry → Scheduler → Type 0
TellsAll env es s =
    (k : ℕ) × (k ≤ 3)
    × (restored (suc (length es)) env (iterate k env s)
        ≡ keep (is_callable env es) (map (λ (e : Entry). e.item) es))

-- A revalidation is to be done, and a thread that waits was notified.
record IsDue (es : List Entry) (s : Scheduler) : Type 0 where
  items : s.items ≡ es
  running : s.running ≡ true
  pending : s.revalidate_pending ≡ true
  notified : is_waiting s.thread ≡ true → s.notified ≡ true

locking-TellsAll :
    (env : Env) (es : List Entry) (s : Scheduler)
    → IsDue es s
    → s.thread ≡ some locking
    → (restored (suc (length es)) env (step env s)
        ≡ keep (is_callable env es) (map (λ (e : Entry). e.item) es))
locking-TellsAll env es s d t =
    subst
      (λ (xs : List Entry).
        restored (suc (length xs)) env (step env s)
        ≡ keep (is_callable env xs) (map (λ (e : Entry). e.item) xs))
      d.items (revalidation_restores env s d.running d.pending t)

at_head-tells :
    (env : Env) (es : List Entry) (s : Scheduler)
    → env.connected ≡ true
    → IsDue es s
    → s.thread ≡ some at_head
    → (restored (suc (length es)) env (step env (step env s))
        ≡ keep (is_callable env es) (map (λ (e : Entry). e.item) es))
at_head-tells env es s c d t =
    subst
      (λ (x : Scheduler).
        restored (suc (length es)) env (step env x)
        ≡ keep (is_callable env es) (map (λ (e : Entry). e.item) es))
      (sym (step_at_head env s c d.running t))
      (locking-TellsAll env es (record s { thread = some locking })
        (record { items = d.items; running = d.running; pending = d.pending; notified = λ h. cc })
        refl)

-- One step to the loop's head.
returned-tells :
    (env : Env) (es : List Entry) (s t : Scheduler)
    → env.connected ≡ true
    → step env s ≡ t
    → IsDue es t
    → t.thread ≡ some at_head
    → TellsAll env es s
unfolding iterate
returned-tells env es s t c e d h = (
  3,
  omega arith,
  subst
      (λ (x : Scheduler).
        restored (suc (length es)) env (step env (step env x))
        ≡ keep (is_callable env es) (map (λ (e : Entry). e.item) es))
      (sym e) (at_head-tells env es t c d h),
)

step_wakes :
    (env : Env) (s : Scheduler) (w : Wait)
    → s.thread ≡ some (waiting w)
    → has_ended env w s ≡ true
    → step env s ≡ record s { thread = some at_head; notified = false }
unfolding step thread_step wake
step_wakes env s w t h = ground arith

woken-tells :
    (env : Env) (es : List Entry) (s : Scheduler) (w : Wait)
    → env.connected ≡ true
    → IsDue es s
    → s.thread ≡ some (waiting w)
    → has_ended env w s ≡ true
    → TellsAll env es s
woken-tells env es s w c d t h =
    returned-tells env es s (record s { thread = some at_head; notified = false }) c
      (step_wakes env s w t h)
      (record { items = d.items; running = d.running; pending = d.pending; notified = λ x. cc })
      refl

-- A wait for items goes on while there is none, and then there is nobody to tell.
empty-tells :
    (env : Env) (s : Scheduler) (w : Wait) → s.thread ≡ some (waiting w) → TellsAll env [] s
unfolding iterate restored
empty-tells env s w t = (0, omega arith, ground arith)

step_returns :
    (env : Env) (s : Scheduler) (j : ℕ) (pending : List ℕ)
    → s.thread ≡ some (in_call j process_sample pending)
    → step env s ≡ record s { thread = some at_head }
unfolding step thread_step
step_returns env s j pending t = ground arith

tells_from :
    (env : Env) (es : List Entry) (s : Scheduler) (p : Phase)
    → env.connected ≡ true
    → IsDue es s
    → s.thread ≡ some p
    → IsSampler p
    → TellsAll env es s
unfolding IsSampler has_ended iterate
tells_from env es s at_head c d t i = (2, omega arith, at_head-tells env es s c d t)
tells_from env es s locking c d t i = (1, omega arith, locking-TellsAll env es s d t)
tells_from env es s ended c d t i = absurd i
tells_from env es s (waiting for_connection) c d t i =
    let n = d.notified (ground arith) in
    let r = d.running in
    let p = d.pending in woken-tells env es s for_connection c d t (ground arith)
tells_from env [] s (waiting for_items) c d t i = empty-tells env s for_items t
tells_from env (e ∷ es) s (waiting for_items) c d t i =
    let n = d.notified (ground arith) in
    let m = d.items in woken-tells env (e ∷ es) s for_items c d t (ground arith)
tells_from env es s (waiting (until_due at)) c d t i =
    let n = d.notified (ground arith) in woken-tells env es s (until_due at) c d t (ground arith)
tells_from env es s (in_call j process_sample pending) c d t i =
    returned-tells env es s (record s { thread = some at_head }) c (step_returns env s j pending t)
      (record { items = d.items; running = d.running; pending = d.pending; notified = λ x. cc })
      refl
tells_from env es s (in_call j connection_restored pending) c d t i = absurd i

-- After a reconnect, the thread of a scheduler that runs and is left alone, wherever it stands
-- except in the middle of another revalidation, calls `onConnectionRestored` within three steps on
-- the registered items whose owner, if they have one, is alive, in the order of registration, and
-- on no other.
pub on_reconnected-TellsAll :
    (env : Env) (s : Scheduler) (p : Phase)
    → env.connected ≡ true
    → s.running ≡ true
    → s.thread ≡ some p
    → IsSampler p
    → TellsAll env s.items (on_reconnected s)
unfolding on_reconnected notify_all
on_reconnected-TellsAll env s p c r t i =
    tells_from env s.items (on_reconnected s) p c
      (record { items = refl; running = r; pending = refl; notified = λ w. ground arith }) t i
