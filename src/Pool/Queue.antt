-- ===== src/Pool/Queue.antt =====
-- The state that the threads of src/ThreadPool.hpp share under `mu_`, and one round of a worker. The
-- condition variable only delays a worker whose round is `waits`.
use redis_cpp.Base.{ℕ, zero, suc, Bool, true, false, List, [], ◌∷◌, ◌++◌, ltb, if◌then◌else◌}
use redis_cpp.Resp.Parser.{Outcome, returns, throws}

-- `tasks_` and `stop_`
pub record ThreadPool {ℓ} (A : Type ℓ) : Type ℓ where
  pub tasks : List A
  pub stop : Bool

-- A round of worker_loop: it waits, ends the thread, or takes a task.
pub data Round {ℓ} (A : Type ℓ) : Type ℓ where
  waits leaves : Round A
  takes : A → ThreadPool A → Round A

-- How many workers the constructor starts; `hardware` is std::thread::hardware_concurrency().
unfoldable pub thread_count : ℕ → ℕ → ℕ
thread_count zero hardware = if ltb hardware 1 then 1 else hardware
thread_count (suc n) hardware = suc n

module _ {ℓ} {A : Type ℓ} where
  abbrev pub new_pool : ThreadPool A
  new_pool = record { tasks = []; stop = false }

  unfoldable pub enqueue : A → ThreadPool A → Outcome (ThreadPool A)
  enqueue f p = if p.stop then throws else returns (record p { tasks = p.tasks ++ f ∷ [] })

  -- The destructor, before it joins the workers.
  unfoldable pub stop_pool : ThreadPool A → ThreadPool A
  stop_pool p = record p { stop = true }

  unfoldable pub next_task : List A → Bool → Round A
  next_task [] false = waits
  next_task [] true = leaves
  next_task (f ∷ fs) stop = takes f (record { tasks = fs; stop = stop })

  unfoldable pub worker_round : ThreadPool A → Round A
  unfolding next_task
  worker_round p = next_task p.tasks p.stop
