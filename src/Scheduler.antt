-- ===== src/Scheduler.antt =====
-- The sampling scheduler of the generic client: sampling_scheduler.h and sampling_scheduler.cpp of
-- shared/libraries/opcuageneric/opcuageneric_client.
-- Time points are nanoseconds of the steady clock. The mutex makes each step below atomic: the
-- sampling thread gives it up only where `Phase` says that the thread stands between two steps.
mod Entries
pub mod Deadline
pub mod Selection
pub mod Calls
pub mod History
pub mod Revalidation
pub mod Progress
pub mod Backlog
pub mod Reconnecting
mod Examples
use opc_ua_modules.Base.{
  ℕ, suc, ◌+◌, ◌*◌, Bool, true, false, ◌||◌, ◌&&◌, not, Option, none, some, List, [], ◌∷◌, map, ltb,
  leb, if◌then◌else◌, nat_beq, get_elem?, set, erase_idx, keep, ◌++◌,
}
use Entries.{Entry, find_entry, earliest}

-- What runs outside of the mutex, on the thread: `processSample` or `onConnectionRestored`.
pub data Call : Type 0 where
  process_sample connection_restored : Call

pub data Wait : Type 0 where
  for_connection for_items : Wait
  until_due : ℕ → Wait

-- Where the sampling thread stands while it does not hold the mutex. `in_call` has the snapshot of
-- `revalidateItems` that is still to be visited.
pub data Phase : Type 0 where
  at_head locking ended : Phase
  waiting : Wait → Phase
  in_call : ℕ → Call → List ℕ → Phase

-- `thread` is none where `thread.joinable()` is false. `notified` is that `notify_all` was called
-- since the thread began the wait that it is in.
pub record Scheduler : Type 0 where
  pub items : List Entry
  pub running : Bool
  pub revalidate_pending : Bool
  pub thread : Option Phase
  pub notified : Bool

-- What the rest of the program answers: the connection test, the clock, whether a weak reference
-- still yields its owner, and `getSamplingInterval` of each item; and whether the wait that the thread
-- is in is over by its timeout or wakes without a notification.
pub record Env : Type 0 where
  pub connected : Bool
  pub now : ℕ
  pub owner_alive : ℕ → Bool
  pub interval_ms : ℕ → ℕ
  pub wakes : Bool

abbrev pub ns_per_ms : ℕ
ns_per_ms = 1000000

-- `advanceDeadline`, with the interval in milliseconds.
pub advance_deadline : ℕ → ℕ → ℕ → ℕ
advance_deadline due now interval_ms =
    let interval = (if ltb interval_ms 1 then 1 else interval_ms) * ns_per_ms in
    let next = due + interval in if ltb now next then next else now + interval

-- `acquireOwner`: an item without an owner can always be called.
unfoldable pub acquire_owner : Env → Entry → Bool
acquire_owner env e = elim e.owner [ none ↦ true | some o ↦ env.owner_alive o ]

abbrev at : Phase → Scheduler → Scheduler
at p s = record s { thread = some p }

-- The loop of `revalidateItems` up to its next call, from the items of the snapshot that are left.
revalidate_from : Env → List ℕ → Scheduler → Phase
unfolding acquire_owner
revalidate_from env [] s = at_head
revalidate_from env (i ∷ pending) s =
    let rest = revalidate_from env pending s in
    if not s.running then at_head else elim (find_entry i s.items) [
      | none ↦ rest
      | some e ↦ if acquire_owner env e then in_call i connection_restored pending else rest
    ]

-- The end of the iteration: the entry at `i` is the one with the earliest deadline.
sample : Env → ℕ → Entry → Scheduler → Scheduler
unfolding acquire_owner advance_deadline
sample env i e s =
    if ltb env.now e.next_due
    then at (waiting (until_due e.next_due)) s
    else if acquire_owner env e
    then record s {
      items =
          set s.items i
            (record e { next_due = advance_deadline e.next_due env.now (env.interval_ms e.item) });
      thread = some (in_call e.item process_sample []);
    }
    else record s { items = erase_idx s.items i; thread = some at_head }

-- From `min_element` on; the list is not empty.
sample_next : Env → Option Entry → ℕ → Scheduler → Scheduler
unfolding sample
sample_next env none i s = at (waiting for_items) s
sample_next env (some e) i s = sample env i e s

-- The body of the loop under the mutex.
locked_body : Env → Scheduler → Scheduler
unfolding revalidate_from sample_next
locked_body env s =
    if not s.running
    then at ended s
    else if s.revalidate_pending
    then record s {
      revalidate_pending = false;
      thread = some (revalidate_from env (map (λ (e : Entry). e.item) s.items) s);
    }
    else sample_next env (get_elem? s.items (earliest s.items)) (earliest s.items) s

-- Whether a wait ends: a timed one also by its timeout, and one with a predicate only where that
-- holds, unless its time is over.
unfoldable pub has_ended : Env → Wait → Scheduler → Bool
has_ended env for_connection s =
    env.wakes || (s.notified && (not s.running || s.revalidate_pending))
has_ended env for_items s =
    (env.wakes || s.notified) && (not s.running || (elim s.items [ [] ↦ false | e ∷ es ↦ true ]))
has_ended env (until_due t) s = env.wakes || s.notified

unfoldable pub wake : Env → Wait → Scheduler → Scheduler
unfolding has_ended
wake env w s =
    if has_ended env w s
    then record s { thread = some at_head; notified = false }
    else record s { notified = false }

abbrev pub is_waiting : Option Phase → Bool
is_waiting (some (waiting w)) = true
is_waiting _ = false

-- `cv.notify_all()` reaches the thread only while it waits.
unfoldable pub notify_all : Scheduler → Scheduler
notify_all s = record s { notified = s.notified || is_waiting s.thread }

-- One step of the thread, from the place where it stands to the next.
thread_step : Env → Phase → Scheduler → Scheduler
unfolding locked_body wake revalidate_from
thread_step env at_head s =
    if not s.running
    then at ended s
    else if env.connected
    then at locking s
    else at (waiting for_connection) s
thread_step env locking s = locked_body env s
thread_step env ended s = s
thread_step env (waiting w) s = wake env w s
thread_step env (in_call i process_sample pending) s = at at_head s
thread_step env (in_call i connection_restored pending) s = at (revalidate_from env pending s) s

pub step : Env → Scheduler → Scheduler
unfolding thread_step
step env s = elim s.thread [ none ↦ s | some p ↦ thread_step env p s ]

-- The operations that other threads, or the item that is being called, may make between two steps.
pub start : Scheduler → Scheduler
start s = elim s.thread [ none ↦ record s { running = true; thread = some at_head } | some p ↦ s ]

-- `stop` up to the join, which waits for the thread to end.
pub stop : Scheduler → Scheduler
unfolding notify_all
stop s = notify_all (record s { running = false })

pub join : Scheduler → Scheduler
join s = elim s.thread [ some ended ↦ record s { thread = none } | _ ↦ s ]

-- A null item is `none`.
pub register_item : Option ℕ → Option ℕ → ℕ → Scheduler → Scheduler
unfolding notify_all
register_item none owner now s = s
register_item (some i) owner now s =
    notify_all
      (record s { items = s.items ++ record { item = i; owner = owner; next_due = now } ∷ [] })

pub unregister_item : ℕ → Scheduler → Scheduler
unfolding notify_all
unregister_item i s =
    notify_all (record s { items = keep (λ (e : Entry). not (nat_beq e.item i)) s.items })

pub on_reconnected : Scheduler → Scheduler
unfolding notify_all
on_reconnected s = notify_all (record s { revalidate_pending = true })

-- The destructor, after `stop` has joined: whom it tells of its end, and what is left.
pub destroy : Env → Scheduler → List ℕ × Scheduler
unfolding acquire_owner
destroy env s =
    (map (λ (e : Entry). e.item) (keep (acquire_owner env) s.items), record s { items = [] })
