-- ===== src/Net/Run.antt =====
-- `run` of src/net/EpollReactor.cpp, its loop included. What each call of epoll_wait returns is an
-- argument, and so is where another thread's stop() clears the flag of the loop.
use redis_cpp.Base.{ℕ, Bool, true, false, List, [], ◌∷◌, if◌then◌else◌}
use redis_cpp.Resp.Parser.{Outcome, returns, throws}
use redis_cpp.Net.Loop.{Config, Answers, Ready, State, iteration}

-- What happens next to a loop that is in epoll_wait: another thread calls stop, or epoll_wait returns
-- EINTR, another error, or events. The flag of `ready` says that stop is called while they are handled.
pub data Moment : Type 0 where
  stopped interrupted failed : Moment
  ready : List Ready → Answers → Bool → Moment

-- Where the loop is, once the moments are used up: left, or in epoll_wait.
pub data RunEnd : Type 0 where
  left waits : RunEnd

-- `running_.store(false)`
unfoldable pub halt : State → State
halt (r, out) = (record r { running = false }, out)

unfoldable pub halt_if : Bool → State → State
unfolding halt
halt_if b s = if b then halt s else s

module _ (can_reserve : ℕ → Bool) (cfg : Config) where
  -- The loop, from a call of epoll_wait on.
  unfoldable pub run_loop : List Moment → ℕ → State → Outcome (State × RunEnd)
  unfolding halt_if
  run_loop [] last_idle_check s = returns (s, waits)
  run_loop (stopped ∷ ms) last_idle_check s = run_loop ms last_idle_check (halt s)
  run_loop (interrupted ∷ ms) last_idle_check s =
      let rest = run_loop ms last_idle_check s in if s.0.running then rest else returns (s, left)
  run_loop (failed ∷ ms) last_idle_check s = returns (s, left)
  run_loop (ready events a is_stopped ∷ ms) last_idle_check s =
      elim (iteration can_reserve cfg events a last_idle_check s) [
        | throws ↦ throws
        | returns (t, checked) ↦
            (let u = halt_if is_stopped t in
              let rest = run_loop ms checked u in if u.0.running then rest else returns (u, left))
      ]

  -- run; the flag says that stop is called before the first test.
  unfoldable pub run : Bool → List Moment → ℕ → State → Outcome (State × RunEnd)
  unfolding run_loop
  run is_stopped ms now (r, out) =
      let u = halt_if is_stopped (record r { running = true }, out) in
      let rest = run_loop ms now u in if u.0.running then rest else returns (u, left)
