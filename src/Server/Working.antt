-- ===== src/Server/Working.antt =====
-- The count of the commands on their way through the steps of the workers: a command goes from the
-- pool to a worker, and from the worker to the notices, and is counted once all the way.
use redis_cpp.Base.{
  ℕ, zero, suc, ◌+◌, ◌≡◌, refl, ap, ◌∙◌, Bool, true, false, Option, none, some, List, [], ◌∷◌, ◌++◌,
  arith,
}
use redis_cpp.Pool.Queue.{waits, leaves, takes, next_task, worker_round}
use redis_cpp.Commands.Command.{Times}
use redis_cpp.Net.Reactor.{Task, send, notify_command_complete}
use redis_cpp.Net.Flight.{one_at, tally, tally-append, InFlight-same}
use redis_cpp.Net.Counts.{tasks_for, Sound}
use redis_cpp.Server.System.{
  Work, running, replied, System, take_task, pick, run_task, execute_nth, finish_nth,
}

abbrev pub fd_of : Work → ℕ
fd_of (running task) = task.fd
fd_of (replied fd gen) = fd

abbrev pub gen_of : Work → ℕ
gen_of (running task) = task.gen
gen_of (replied fd gen) = gen

abbrev pub held_by : List Work → ℕ → ℕ → ℕ
held_by = tally fd_of gen_of

abbrev pub IsSound : System → Type 0
IsSound s = Sound (held_by s.working) s.reactor

pub take_task-IsSound : (s : System) → IsSound s → IsSound (take_task s)
unfolding take_task worker_round next_task tally
take_task-IsSound s h = by_tasks s.reactor.pool.tasks s.reactor.pool.stop refl
  where
    by_tasks :
        (ts : List Task) (stop : Bool)
        → s.reactor.pool.tasks ≡ ts
        → IsSound (elim (next_task ts stop) [
          | waits ↦ s
          | leaves ↦ s
          | takes task pool ↦ record s {
            reactor = record s.reactor { pool = pool };
            working = s.working ++ running task ∷ [];
          }
        ])
    by_tasks [] false e = h
    by_tasks [] true e = h
    by_tasks (task ∷ ts) stop e = InFlight-same s.reactor.conns s.reactor.gen_counter _ h _ (λ j k.
        omega (
          arith,
          ap (λ x. tasks_for x j k) e,
          tally-append fd_of gen_of s.working (running task ∷ []) j k,
        ))

-- What pick finds stands in the list, between the other two parts.
Splits : List Work → Option (List Work × Work × List Work) → Type 0
Splits ws none = Unit
Splits ws (some (before, w, behind)) = ws ≡ before ++ w ∷ behind

pick-Splits : (n : ℕ) (ws : List Work) → Splits ws (pick n ws)
unfolding pick Splits
pick-Splits n [] = tt
pick-Splits zero (w ∷ ws) = refl
pick-Splits (suc n) (w ∷ ws) = longer (pick n ws) (pick-Splits n ws)
  where
    longer :
        (o : Option (List Work × Work × List Work))
        → Splits ws o
        → Splits
            (w ∷ ws)
            (elim o [ none ↦ none | some (before, v, behind) ↦ some (w ∷ before, v, behind) ])
    longer none u = tt
    longer (some (before, v, behind)) e = ap (λ x. w ∷ x) e

count_split :
    (ws before behind : List Work) (w : Work)
    → ws ≡ before ++ w ∷ behind
    → (j k : ℕ)
    → held_by ws j k ≡ held_by before j k + (one_at (fd_of w) (gen_of w) j k + held_by behind j k)
unfolding tally
count_split ws before behind w e j k =
    ap (λ x. held_by x j k) e ∙ tally-append fd_of gen_of before (w ∷ behind) j k

pub execute_nth-IsSound : (n : ℕ) (t : Times) (s : System) → IsSound s → IsSound (execute_nth n t s)
unfolding execute_nth run_task send Splits tally
execute_nth-IsSound n t s h = by_pick (pick n s.working) (pick-Splits n s.working)
  where
    by_pick :
        (o : Option (List Work × Work × List Work))
        → Splits s.working o
        → IsSound (elim o [
          | none ↦ s
          | some (before, running task, behind) ↦ run_task before behind task t s
          | some (before, replied fd gen, behind) ↦ s
        ])
    by_pick none u = h
    by_pick (some (before, replied fd gen, behind)) e = h
    by_pick (some (before, running task, behind)) e =
        InFlight-same s.reactor.conns s.reactor.gen_counter _ h _ (λ j k. omega (
          arith,
          count_split s.working before behind (running task) e j k,
          tally-append fd_of gen_of before (replied task.fd task.gen ∷ behind) j k,
        ))

pub finish_nth-IsSound : (n : ℕ) (s : System) → IsSound s → IsSound (finish_nth n s)
unfolding finish_nth notify_command_complete Splits tally
finish_nth-IsSound n s h = by_pick (pick n s.working) (pick-Splits n s.working)
  where
    by_pick :
        (o : Option (List Work × Work × List Work))
        → Splits s.working o
        → IsSound (elim o [
          | none ↦ s
          | some (before, running task, behind) ↦ s
          | some (before, replied fd gen, behind) ↦ record s {
            reactor = notify_command_complete fd gen s.reactor;
            working = before ++ behind;
          }
        ])
    by_pick none u = h
    by_pick (some (before, running task, behind)) e = h
    by_pick (some (before, replied fd gen, behind)) e =
        InFlight-same s.reactor.conns s.reactor.gen_counter _ h _ (λ j k. omega (
          arith,
          count_split s.working before behind (replied fd gen) e j k,
          tally-append fd_of gen_of before behind j k,
          tally-append (λ n. n.fd) (λ n. n.gen) s.reactor.completed_commands
              (record { fd = fd; gen = gen } ∷ []) j k,
        ))

pub take_task-gen : (s : System) → (take_task s).reactor.gen_counter ≡ s.reactor.gen_counter
unfolding take_task
take_task-gen s = ground arith

pub execute_nth-gen :
    (n : ℕ) (t : Times) (s : System)
    → (execute_nth n t s).reactor.gen_counter ≡ s.reactor.gen_counter
unfolding execute_nth run_task send
execute_nth-gen n t s = ground arith

pub finish_nth-gen :
    (n : ℕ) (s : System) → (finish_nth n s).reactor.gen_counter ≡ s.reactor.gen_counter
unfolding finish_nth notify_command_complete
finish_nth-gen n s = ground arith

-- The workers leave the connections and the interest list alone.
pub take_task-alone :
    (s : System)
    → ((take_task s).reactor.conns ≡ s.reactor.conns)
      × ((take_task s).reactor.interests ≡ s.reactor.interests)
unfolding take_task
take_task-alone s = (ground arith, ground arith)

pub execute_nth-alone :
    (n : ℕ) (t : Times) (s : System)
    → ((execute_nth n t s).reactor.conns ≡ s.reactor.conns)
      × ((execute_nth n t s).reactor.interests ≡ s.reactor.interests)
unfolding execute_nth run_task send
execute_nth-alone n t s = (ground arith, ground arith)

pub finish_nth-alone :
    (n : ℕ) (s : System)
    → ((finish_nth n s).reactor.conns ≡ s.reactor.conns)
      × ((finish_nth n s).reactor.interests ≡ s.reactor.interests)
unfolding finish_nth notify_command_complete
finish_nth-alone n s = (ground arith, ground arith)
