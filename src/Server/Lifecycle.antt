-- ===== src/Server/Lifecycle.antt =====
-- The life cycle of `OpcUaServer`: `start`, `stop`, `prepare`, `shutdownServer` and the loop of
-- `execute`. The stack's server is known by whether there is one.
pub mod Whole
use opc_ua_modules.Base.{◌≡◌, Bool, true, false, not, ◌&&◌, if◌then◌else◌}

-- What the stack answers: whether the minimal configuration, the access control and the startup
-- succeed, and whether the shutdown does.
pub record StackAnswers : Type 0 where
  pub configures : Bool
  pub controls_access : Bool
  pub starts_up : Bool
  pub shuts_down : Bool

-- openDAQ's `ThreadEx`: after `start` it is started, and after `stop`, which waits for the end of
-- `execute`, it is not.
pub record ServerThread (T : Type 0) : Type 0 where
  pub get_started : T → Bool
  pub start : T → T
  pub stop : T → T
  pub started : (t : T) → get_started (start t) ≡ true
  pub stopped : (t : T) → get_started (stop t) ≡ false

-- `listening` is from a successful startup to the shutdown; `broken` is that a function of the stack
-- was called on a server that is not there; `aborted` is that an exception left the thread, which
-- ends the program.
pub record Life (T : Type 0) : Type 0 where
  pub has_server : Bool
  pub thread : T
  pub listening : Bool
  pub broken : Bool
  pub aborted : Bool

-- Whether the operation threw, and the state after it.
pub record Ended (T : Type 0) : Type 0 where
  pub threw : Bool
  pub life : Life T

module _ {T : Type 0} where
  abbrev pub returns : Life T → Ended T
  returns l = record { threw = false; life = l }

  abbrev pub throws : Life T → Ended T
  throws l = record { threw = true; life = l }

  infixl 5 ◌followed_by◌
  abbrev pub ◌followed_by◌ : Ended T → (Life T → Ended T) → Ended T
  e followed_by next = if e.threw then e else next e.life

  -- `UA_Server_run_shutdown`
  unfoldable pub run_shutdown : StackAnswers → Life T → Ended T
  run_shutdown a l =
      if not l.has_server
      then returns (record l { broken = true })
      else if a.shuts_down
      then returns (record l { listening = false })
      else throws l

  unfoldable pub delete_server : Life T → Ended T
  delete_server l =
      returns (if l.has_server then record l { has_server = false; listening = false } else l)

  unfoldable pub shutdown_server : ServerThread T → StackAnswers → Life T → Ended T
  unfolding run_shutdown delete_server
  shutdown_server th a l =
      (if th.get_started l.thread then run_shutdown a l else returns l) followed_by delete_server

  -- An `OpcUaException` leaves the server that was created.
  unfoldable pub prepare_server : StackAnswers → Life T → Ended T
  prepare_server a l =
      let created = record l { has_server = true } in
      if a.configures && a.controls_access then returns created else throws created

  unfoldable pub try_prepare : ServerThread T → StackAnswers → Life T → Ended T
  unfolding shutdown_server prepare_server
  try_prepare th a l =
      if th.get_started l.thread
      then throws l
      else (if l.has_server then shutdown_server th a l else returns l) followed_by prepare_server a

  -- The handler shuts down and throws again.
  unfoldable pub prepare : ServerThread T → StackAnswers → Life T → Ended T
  unfolding try_prepare shutdown_server
  prepare th a l =
      let tried = try_prepare th a l in
      if tried.threw then throws (shutdown_server th a tried.life).life else tried

  unfoldable pub startup : ServerThread T → StackAnswers → Life T → Ended T
  startup th a l =
      if a.starts_up
      then returns (record l { listening = true; thread = th.start l.thread })
      else throws l

  unfoldable pub start_server : ServerThread T → StackAnswers → Life T → Ended T
  unfolding prepare startup
  start_server th a l =
      if th.get_started l.thread
      then throws l
      else (if l.has_server then returns l else prepare th a l) followed_by startup th a

  -- One round of the loop of `execute`.
  unfoldable pub execute_server_round : ServerThread T → Life T → Ended T
  execute_server_round th l =
      if th.get_started l.thread && not l.has_server
      then returns (record l { broken = true })
      else returns l

  -- `ThreadEx::stop`, in which the loop ends by its `shutdownServer`. An exception of that leaves
  -- `execute` on the thread, and nothing after it is reached.
  unfoldable pub stop_thread : ServerThread T → StackAnswers → Life T → Ended T
  unfolding shutdown_server
  stop_thread th a l =
      let e = if th.get_started l.thread then shutdown_server th a l else returns l in
      record e { life = record (e.life) { thread = th.stop l.thread; aborted = e.threw } }

  -- In between it waits for the futures of client infos.
  unfoldable pub stop_server : ServerThread T → StackAnswers → Life T → Ended T
  unfolding stop_thread shutdown_server
  stop_server th a l = stop_thread th a l followed_by shutdown_server th a
