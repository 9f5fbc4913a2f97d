-- ===== src/Server/System.antt =====
-- The running server: the reactor's thread, the workers of src/ThreadPool.hpp, and the store that
-- they share, as src/main.cpp puts them together. A step of a worker falls between two steps of the
-- reactor, and never within one: what the two share is behind a mutex, and the order in which two of
-- its sections are entered is the order of the steps.
use redis_cpp.Base.{ℕ, zero, suc, ◌+◌, Bool, Option, none, some, List, [], ◌∷◌, ◌++◌, length}
use redis_cpp.Resp.Parser.{Outcome, returns, throws}
use redis_cpp.Pool.Queue.{ThreadPool, waits, leaves, takes, worker_round}
use redis_cpp.Store.State.{KvStore}
use redis_cpp.Commands.Command.{Times}
use redis_cpp.Commands.Dispatch.{registry, on_message}
use redis_cpp.Net.Reactor.{
  Task, Reactor, make_reactor, Sent, check_idle, process_pending_writes, process_completed_commands,
  send, notify_command_complete,
}
use redis_cpp.Net.Loop.{Config, Answers, Ready, State, handle_event}

-- What a worker holds: a task whose on_message is still to run, or one that has only
-- notify_command_complete left.
pub data Work : Type 0 where
  running : Task → Work
  replied : ℕ → ℕ → Work

pub record System : Type 0 where
  pub reactor : Reactor
  pub sent : List Sent
  pub working : List Work
  pub store : KvStore

-- A step: the reactor handles one event, runs process_pending_writes or process_completed_commands, or
-- scans for idle connections; a worker takes a task, runs on_message at some time, or gives notice.
pub data Action : Type 0 where
  handles : Ready → Action
  flushes_pending : Answers → Action
  completes_pending : Action
  idles : ℕ → Action
  works : Action
  executes : ℕ → Times → Action
  finishes : ℕ → Action

unfoldable pub take_task : System → System
take_task s = elim (worker_round s.reactor.pool) [
  | waits ↦ s
  | leaves ↦ s
  | takes task pool ↦ record s {
    reactor = record s.reactor { pool = pool };
    working = s.working ++ running task ∷ [];
  }
]

-- The worker that holds the n-th piece of work, with what others hold before and behind it.
unfoldable pub pick : ℕ → List Work → Option (List Work × Work × List Work)
pick n [] = none
pick zero (w ∷ ws) = some ([], w, ws)
pick (suc n) (w ∷ ws) = elim (pick n ws) [
  | none ↦ none
  | some (before, v, behind) ↦ some (w ∷ before, v, behind)
]

-- The lambda of dispatch_next_command up to the end of on_message: the command runs on the store, and
-- its reply is queued for the reactor.
unfoldable pub run_task : List Work → List Work → Task → Times → System → System
unfolding on_message send
run_task before behind task t s =
    let (store, reply) = on_message registry task.args t s.store in
    record s {
      reactor = send task.fd task.gen reply s.reactor;
      working = before ++ replied task.fd task.gen ∷ behind;
      store = store;
    }

unfoldable pub execute_nth : ℕ → Times → System → System
unfolding run_task
execute_nth n t s = elim (pick n s.working) [
  | none ↦ s
  | some (before, running task, behind) ↦ run_task before behind task t s
  | some (before, replied fd gen, behind) ↦ s
]

unfoldable pub finish_nth : ℕ → System → System
unfolding notify_command_complete
finish_nth n s = elim (pick n s.working) [
  | none ↦ s
  | some (before, running task, behind) ↦ s
  | some (before, replied fd gen, behind) ↦ record s {
    reactor = notify_command_complete fd gen s.reactor;
    working = before ++ behind;
  }
]

-- The system that main starts.
abbrev pub start_system : ℕ → ℕ → ThreadPool Task → KvStore → System
start_system listen_fd stop_fd pool store = record {
  reactor = make_reactor listen_fd stop_fd pool;
  sent = [];
  working = [];
  store = store;
}

abbrev pub with_state : System → State → System
with_state s (r, out) = record s { reactor = r; sent = out }

module _ (can_reserve : ℕ → Bool) (cfg : Config) where
  unfoldable pub perform : Action → System → Outcome System
  perform (handles e) s = elim (handle_event can_reserve cfg e (s.reactor, s.sent)) [
    | throws ↦ throws
    | returns (t, _) ↦ returns (with_state s t)
  ]
  perform (flushes_pending a) s =
      let (r, out) = process_pending_writes a.kernel a.has_memory s.reactor in
      returns (with_state s (r, s.sent ++ out))
  perform completes_pending s = elim (process_completed_commands s.reactor) [
    | throws ↦ throws
    | returns r ↦ returns (record s { reactor = r })
  ]
  perform (idles now) s =
      returns (record s { reactor = check_idle now cfg.idle_timeout_s s.reactor })
  perform works s = returns (take_task s)
  perform (executes n t) s = returns (execute_nth n t s)
  perform (finishes n) s = returns (finish_nth n s)

  unfoldable pub perform_all : List Action → System → Outcome System
  unfolding perform
  perform_all [] s = returns s
  perform_all (a ∷ rest) s = elim (perform a s) [ throws ↦ throws | returns t ↦ perform_all rest t ]

-- How many descriptors accept4 returns in the steps.
unfoldable pub accepted_in : List Action → ℕ
accepted_in [] = 0
accepted_in (handles e ∷ rest) = length e.answers.accepted + accepted_in rest
accepted_in (flushes_pending a ∷ rest) = accepted_in rest
accepted_in (completes_pending ∷ rest) = accepted_in rest
accepted_in (idles now ∷ rest) = accepted_in rest
accepted_in (works ∷ rest) = accepted_in rest
accepted_in (executes n t ∷ rest) = accepted_in rest
accepted_in (finishes n ∷ rest) = accepted_in rest
