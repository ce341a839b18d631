-- ===== src/Server/Examples.antt =====
-- Sessions of two users on concrete inputs.
use opc_ua_modules.Base.{
  ℕ, zero, suc, ◌+◌, ◌<◌, arith, List, ◌++◌, Bool, ◌∷◌, ◌≡◌, ◌≢◌, ◌⊎◌, refl, true, false, none,
  some, nat_eq, string_eq, ◌==◌, if◌then◌else◌, [],
}
use opc_ua_modules.Base.Int.{pos}
use opc_ua_modules.Server.{
  good, bad_user_access_denied, username, Hooks, Server, member, activate_session,
}
use opc_ua_modules.Base.Dict.{insert, contains, erase, lookup}
use opc_ua_modules.Server.EventManager.{
  EventManager, on_display_name_changed, on_description_changed, remove_on_display_name_changed,
  trigger_display_name_changed, trigger_description_changed,
}
use opc_ua_modules.Server.EventManager.Registered.{
  ManagerAction, registers_name, registers_description, removes_name, changes_name,
  changes_description, apply_manager, run_manager, run_watched, watched_of, run_manager_refines,
}
use opc_ua_modules.Server.TaskQueue.{process_task_queue, all_pushed, weigh, process_task_queue_lem}
use opc_ua_modules.Server.Lifecycle.{
  StackAnswers, ServerThread, Life, prepare, execute_server_round,
}
use opc_ua_modules.Server.Lifecycle.Whole.{
  prepares, starts, stops, rounds, IsWhole, AreAllowed, run_life, run_life-IsWhole, prepare_running,
}
use opc_ua_modules.Server.Sessions.{Accepted, activate_session-Accepted}

abbrev hooks : Hooks ℕ
hooks = record {
  authenticate = λ u p. if p == "secret" then some 1 else none;
  is_anonymous_allowed = false;
  authenticate_anonymous = none;
  create_session_context = some (λ id user. some 4);
  has_connected_handler = true;
  has_disconnected_handler = true;
  has_delete_callback = true;
  has_client_info_handler = true;
  peer_of = λ id. some 6;
}

abbrev idle : Server ℕ
idle = record {
  server_lock = record { password = ""; session_id = 0; valid_to = pos 0 };
  session_context = [];
  connected = [];
  disconnected = [];
  deleted = [];
  scheduled = [];
}

activated_four : (activate_session hooks good 8 (username "ann" "secret") none idle).1 ≡ some 4
unfolding activate_session
activated_four = refl

absent_four : member 4 [] ≡ false
unfolding member
absent_four = refl

activate_session-Accepted_example :
    ((((activate_session hooks bad_user_access_denied 8 (username "ann" "secret") none idle).2)
        ≡ good)
      × ((user : ℕ) × Accepted hooks (username "ann" "secret") user))
    ⊎ ((((activate_session hooks bad_user_access_denied 8 (username "ann" "secret") none idle).2)
          ≢ good)
        × (((activate_session hooks bad_user_access_denied 8 (username "ann" "secret") none idle).0)
            ≡ idle)
        × (((activate_session hooks bad_user_access_denied 8 (username "ann" "secret") none idle).1)
            ≡ none))
activate_session-Accepted_example =
    activate_session-Accepted hooks bad_user_access_denied 8 (username "ann" "secret") none idle

abbrev entered : Server ℕ
entered = (activate_session hooks good 8 (username "ann" "secret") none idle).0

abbrev thread : ServerThread Bool
thread = record {
  get_started = λ t. t;
  start = λ t. true;
  stop = λ t. false;
  started = λ t. refl;
  stopped = λ t. refl;
}

abbrev all_well : StackAnswers
all_well = record { configures = true; controls_access = true; starts_up = true; shuts_down = true }

abbrev no_access : StackAnswers
no_access = record {
  configures = true;
  controls_access = false;
  starts_up = true;
  shuts_down = true;
}

abbrev not_started : Life Bool
not_started = record {
  has_server = false;
  thread = false;
  listening = false;
  broken = false;
  aborted = false;
}

abbrev listening : Life Bool
listening = record {
  has_server = true;
  thread = true;
  listening = true;
  broken = false;
  aborted = false;
}

run_life-IsWhole_example : IsWhole thread (
    run_life thread
      ((no_access, prepares) ∷ (all_well, starts) ∷ (all_well, rounds) ∷ (all_well, stops) ∷ [])
      not_started)
unfolding AreAllowed
run_life-IsWhole_example =
    run_life-IsWhole thread
      ((no_access, prepares) ∷ (all_well, starts) ∷ (all_well, rounds) ∷ (all_well, stops) ∷ [])
      not_started (refl, (tt, (tt, (tt, tt)))) (record { serves = λ h. cc; whole = refl })

prepare_running_example :
    let e = prepare thread all_well listening in
    (e.threw ≡ true)
    × (e.life.has_server ≡ false)
    × (thread.get_started e.life.thread ≡ true)
    × ((execute_server_round thread e.life).life.broken ≡ true)
prepare_running_example = prepare_running thread all_well listening refl refl refl

abbrev manager : EventManager ℕ
manager = record { create_optional_node = none; display_names = []; descriptions = []; calls = [] }

abbrev manager_history : List (ManagerAction ℕ)
manager_history =
    registers_name 4 10
    ∷ registers_name 4 11
    ∷ changes_name 4
    ∷ removes_name 4
    ∷ changes_name 4
    ∷ registers_description 4 12
    ∷ changes_description 4
    ∷ []

run_manager_refines_example :
    watched_of (run_manager manager_history manager)
    ≡ run_watched manager_history (watched_of manager)
run_manager_refines_example = run_manager_refines manager_history manager

-- The callback that came second is not called.
manager-calls : (run_manager manager_history manager).calls ≡ (10, 4) ∷ (12, 4) ∷ []
unfolding run_manager apply_manager on_display_name_changed on_description_changed
    remove_on_display_name_changed trigger_display_name_changed trigger_description_changed insert
    contains erase lookup
manager-calls = refl

-- Each number above 0 pushes its predecessor.
abbrev predecessors : ℕ → List ℕ
predecessors zero = []
predecessors (suc n) = n ∷ []

lighter : (n : ℕ) → weigh (λ k. k + 1) (predecessors n) < n + 1
unfolding weigh
lighter zero = omega arith
lighter (suc n) = omega arith

process_task_queue_lem_example :
    (ran : List ℕ) × (process_task_queue 20 predecessors (2 ∷ 1 ∷ []) ≡ some ran)
    × (ran ≡ (2 ∷ 1 ∷ []) ++ all_pushed predecessors ran)
unfolding weigh
process_task_queue_lem_example =
    process_task_queue_lem 20 (λ k. k + 1) predecessors (2 ∷ 1 ∷ []) lighter (omega arith)

processed : process_task_queue 20 predecessors (2 ∷ 1 ∷ []) ≡ some (2 ∷ 1 ∷ 1 ∷ 0 ∷ 0 ∷ [])
unfolding process_task_queue
processed = refl
