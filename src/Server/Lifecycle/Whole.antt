-- ===== src/Server/Lifecycle/Whole.antt =====
-- Which histories keep the server whole, and the call that does not.
use opc_ua_modules.Base.{
  ◌≡◌, refl, ap, sym, subst, ◌∙◌, true, false, not, if◌then◌else◌, List, [], ◌∷◌, arith, Bool-cases,
  inl, inr, if_true,
}
use opc_ua_modules.Server.Lifecycle.{
  StackAnswers, ServerThread, Life, Ended, returns, throws, run_shutdown, delete_server,
  shutdown_server, prepare_server, try_prepare, prepare, startup, start_server,
  execute_server_round, stop_thread, stop_server,
}

pub data LifeAction : Type 0 where
  prepares starts stops rounds : LifeAction

-- A thread that runs has a server that listens, a server that listens is there, and the stack was
-- never called without one.
pub record IsWhole {T : Type 0} (th : ServerThread T) (l : Life T) : Type 0 where
  pub serves : th.get_started l.thread ≡ true → l.has_server ≡ true
  pub whole : l.broken ≡ false

module _ {T : Type 0} (th : ServerThread T) where
  unfoldable pub apply_life : StackAnswers → LifeAction → Life T → Ended T
  apply_life a prepares l = prepare th a l
  apply_life a starts l = start_server th a l
  apply_life a stops l = stop_server th a l
  apply_life a rounds l = execute_server_round th l

  -- Without a thread, a shutdown deletes the server and cannot fail.
  shutdown_idle :
      (a : StackAnswers) (l : Life T)
      → th.get_started l.thread ≡ false
      → let e = shutdown_server th a l in
        (e.threw ≡ false)
        × (e.life.broken ≡ l.broken)
        × (e.life.thread ≡ l.thread)
        × (e.life.has_server ≡ false)
  unfolding shutdown_server delete_server
  shutdown_idle a l s = ground arith

  prepare_server_lem :
      (a : StackAnswers) (l : Life T)
      → let e = prepare_server a l in
        (e.life.broken ≡ l.broken) × (e.life.thread ≡ l.thread) × (e.life.has_server ≡ true)
  unfolding prepare_server
  prepare_server_lem a l = ground arith

  try_prepare_idle :
      (a : StackAnswers) (l : Life T)
      → th.get_started l.thread ≡ false
      → let e = try_prepare th a l in
        (e.life.broken ≡ l.broken) × (e.life.thread ≡ l.thread) × (e.life.has_server ≡ true)
  unfolding try_prepare
  try_prepare_idle a l s = ground (
    arith,
    shutdown_idle a l s,
    prepare_server_lem a (shutdown_server th a l).life,
    prepare_server_lem a l,
  )

  prepare_idle :
      (a : StackAnswers) (l : Life T)
      → th.get_started l.thread ≡ false
      → let e = prepare th a l in
        (e.life.broken ≡ l.broken) × (e.life.thread ≡ l.thread) × (e.life.has_server ≡ not e.threw)
  unfolding prepare
  prepare_idle a l s =
      let (broken, thread, has) = try_prepare_idle a l s in
      let idle : th.get_started (try_prepare th a l).life.thread ≡ false =
        ap th.get_started thread ∙ s in
      ground (arith, try_prepare_idle a l s, shutdown_idle a (try_prepare th a l).life idle)

  start_server-IsWhole :
      (a : StackAnswers) (l : Life T) → IsWhole th l → IsWhole th (start_server th a l).life
  unfolding start_server startup
  start_server-IsWhole a l w = elim (Bool-cases (th.get_started l.thread)) [
    | inl on ↦ record { serves = λ h. ground (arith, w.serves); whole = ground (arith, w.whole) }
    | inr off ↦ record {
      serves = λ h. ground (arith, prepare_idle a l off);
      whole = ground (arith, prepare_idle a l off, w.whole);
    }
  ]

  prepare-IsWhole :
      (a : StackAnswers) (l : Life T)
      → th.get_started l.thread ≡ false
      → IsWhole th l
      → IsWhole th (prepare th a l).life
  prepare-IsWhole a l off w =
      let idle : th.get_started (prepare th a l).life.thread ≡ false =
        ap th.get_started (prepare_idle a l off).1 ∙ off in
      record { serves = λ h. ground arith; whole = ground (arith, prepare_idle a l off, w.whole) }

  execute_server_round-IsWhole :
      (l : Life T) → IsWhole th l → IsWhole th (execute_server_round th l).life
  unfolding execute_server_round
  execute_server_round-IsWhole l w = record {
    serves = λ h. ground (arith, w.serves);
    whole = ground (arith, w.serves, w.whole);
  }

  shutdown_whole :
      (a : StackAnswers) (l : Life T)
      → IsWhole th l
      → (shutdown_server th a l).life.broken ≡ l.broken
  unfolding shutdown_server run_shutdown delete_server
  shutdown_whole a l w = ground (arith, w.serves)

  stop_thread_lem :
      (a : StackAnswers) (l : Life T)
      → IsWhole th l
      → ((stop_thread th a l).life.broken ≡ l.broken)
        × ((stop_thread th a l).life.thread ≡ th.stop l.thread)
  unfolding stop_thread
  stop_thread_lem a l w = ground (arith, shutdown_whole a l w)

  stop_server_lem :
      (a : StackAnswers) (l : Life T)
      → IsWhole th l
      → ((stop_server th a l).life.broken ≡ l.broken)
        × (th.get_started (stop_server th a l).life.thread ≡ false)
  unfolding stop_server
  stop_server_lem a l w =
      let (broken, thread) = stop_thread_lem a l w in
      let off : th.get_started (stop_thread th a l).life.thread ≡ false =
        ap th.get_started thread ∙ th.stopped l.thread in
      let (fine, kept, same, gone) = shutdown_idle a (stop_thread th a l).life off in
      let still : th.get_started (shutdown_server th a (stop_thread th a l).life).life.thread
          ≡ false =
        ap th.get_started same ∙ off in
      ground arith

  stop_server-IsWhole :
      (a : StackAnswers) (l : Life T) → IsWhole th l → IsWhole th (stop_server th a l).life
  stop_server-IsWhole a l w = record {
    serves = λ h. ground (arith, stop_server_lem a l w);
    whole = ground (arith, stop_server_lem a l w, w.whole);
  }

  unfoldable pub run_life : List (StackAnswers × LifeAction) → Life T → Life T
  run_life [] l = l
  run_life ((a, action) ∷ rest) l = run_life rest (apply_life a action l).life

  -- `prepare` is not called while the thread runs.
  unfoldable pub IsAllowed : LifeAction → Life T → Type 0
  IsAllowed prepares l = th.get_started l.thread ≡ false
  IsAllowed starts l = Unit
  IsAllowed stops l = Unit
  IsAllowed rounds l = Unit

  unfoldable pub AreAllowed : List (StackAnswers × LifeAction) → Life T → Type 0
  unfolding IsAllowed apply_life
  AreAllowed [] l = Unit
  AreAllowed ((a, action) ∷ rest) l =
      IsAllowed action l × AreAllowed rest (apply_life a action l).life

  apply_life-IsWhole :
      (a : StackAnswers) (action : LifeAction) (l : Life T)
      → IsAllowed action l
      → IsWhole th l
      → IsWhole th (apply_life a action l).life
  unfolding IsAllowed apply_life
  apply_life-IsWhole a prepares l ok w = prepare-IsWhole a l ok w
  apply_life-IsWhole a starts l ok w = start_server-IsWhole a l w
  apply_life-IsWhole a stops l ok w = stop_server-IsWhole a l w
  apply_life-IsWhole a rounds l ok w = execute_server_round-IsWhole l w

  -- Through any history of starts, stops, rounds of the loop and preparations that are not made while
  -- the thread runs, whatever the stack answers and whether operations throw or not, a thread that
  -- runs has a server, and the stack is never called on a server that is not there.
  pub run_life-IsWhole :
      (as' : List (StackAnswers × LifeAction)) (l : Life T)
      → AreAllowed as' l
      → IsWhole th l
      → IsWhole th (run_life as' l)
  unfolding run_life AreAllowed
  run_life-IsWhole [] l ok w = w
  run_life-IsWhole ((a, action) ∷ rest) l ok w =
      run_life-IsWhole rest (apply_life a action l).life ok.1 (apply_life-IsWhole a action l ok.0 w)

  shutdown_running :
      (a : StackAnswers) (l : Life T)
      → th.get_started l.thread ≡ true
      → l.has_server ≡ true
      → a.shuts_down ≡ true
      → shutdown_server th a l ≡ returns (record l { has_server = false; listening = false })
  unfolding shutdown_server run_shutdown delete_server
  shutdown_running a l on there down = ground arith

  prepare_running_throws :
      (a : StackAnswers) (l : Life T)
      → th.get_started l.thread ≡ true
      → l.has_server ≡ true
      → a.shuts_down ≡ true
      → prepare th a l ≡ throws (record l { has_server = false; listening = false })
  unfolding prepare try_prepare
  prepare_running_throws a l on there down =
      let handled =
        λ (e : Ended T). if e.threw then throws (shutdown_server th a e.life).life else e in
      ap handled (if_true (th.get_started l.thread) (throws l) _ on)
      ∙ ap (λ (e : Ended T). throws e.life) (shutdown_running a l on there down)

  -- A preparation while the thread runs is refused with an exception, but it deletes the server that
  -- the thread runs on, if the stack can shut it down: the next round of the loop calls the stack
  -- without one.
  pub prepare_running :
      (a : StackAnswers) (l : Life T)
      → th.get_started l.thread ≡ true
      → l.has_server ≡ true
      → a.shuts_down ≡ true
      → let e = prepare th a l in
        (e.threw ≡ true)
        × (e.life.has_server ≡ false)
        × (th.get_started e.life.thread ≡ true)
        × ((execute_server_round th e.life).life.broken ≡ true)
  unfolding execute_server_round
  prepare_running a l on there down =
      subst
        (λ (e : Ended T).
          (e.threw ≡ true)
          × (e.life.has_server ≡ false)
          × (th.get_started e.life.thread ≡ true)
          × ((execute_server_round th e.life).life.broken ≡ true))
        (sym (prepare_running_throws a l on there down)) (refl, refl, on, rw on refl)
