-- ===== src/Pool/Order.antt =====
-- The pool's tasks are taken in the order in which they were enqueued, by whichever worker, and all of
-- them before the workers end.
use redis_cpp.Base.{
  ℕ, zero, suc, ◌≤◌, ◌≡◌, refl, sym, ap₂, ◌∙◌, Bool, true, false, List, [], ◌∷◌, ◌++◌,
  if◌then◌else◌, length, replicate, arith, append-nil, append_assoc,
}
use redis_cpp.Resp.Parser.{Outcome, returns, throws}
use redis_cpp.Pool.Queue.{
  ThreadPool, Round, waits, leaves, takes, enqueue, stop_pool, next_task, worker_round,
}

-- What some thread does with the pool: enqueue a task, stop the pool, or a round of a worker.
pub data Move {ℓ} (A : Type ℓ) : Type ℓ where
  enqueues : A → Move A
  stops works : Move A

-- The pool and the tasks that have been taken.
pub record History {ℓ} (A : Type ℓ) : Type ℓ where
  pub pool : ThreadPool A
  pub taken : List A

module _ {ℓ} {A : Type ℓ} where
  abbrev after_round : List A → ThreadPool A → Round A → History A
  after_round taken p waits = record { pool = p; taken = taken }
  after_round taken p leaves = record { pool = p; taken = taken }
  after_round taken p (takes f q) = record { pool = q; taken = taken ++ f ∷ [] }

  -- An enqueue that throws leaves the pool alone.
  abbrev after_enqueue : History A → Outcome (ThreadPool A) → History A
  after_enqueue h (returns q) = record h { pool = q }
  after_enqueue h throws = h

  unfoldable pub move : Move A → History A → History A
  move (enqueues f) h = after_enqueue h (enqueue f h.pool)
  move stops h = record h { pool = stop_pool h.pool }
  move works h = after_round h.taken h.pool (worker_round h.pool)

  unfoldable pub moves : List (Move A) → History A → History A
  unfolding move
  moves [] h = h
  moves (m ∷ ms) h = moves ms (move m h)

  -- The tasks among the moves that are enqueued while the pool is not stopped.
  unfoldable pub accepted : List (Move A) → Bool → List A
  accepted [] stopped = []
  accepted (enqueues f ∷ ms) stopped = (if stopped then [] else f ∷ []) ++ accepted ms stopped
  accepted (stops ∷ ms) stopped = accepted ms true
  accepted (works ∷ ms) stopped = accepted ms stopped

  works_kept :
      (taken fs : List A) (stop : Bool)
      → let h = move works (record { pool = record { tasks = fs; stop = stop }; taken = taken }) in
        (h.taken ++ h.pool.tasks ≡ taken ++ fs) × (h.pool.stop ≡ stop)
  unfolding move worker_round next_task
  works_kept taken [] true = (refl, refl)
  works_kept taken [] false = (refl, refl)
  works_kept taken (f ∷ fs) stop = (append_assoc taken (f ∷ []) fs, refl)

  enqueued :
      (f : A) (taken fs : List A) (stop : Bool)
      → let h =
          move (enqueues f) (record { pool = record { tasks = fs; stop = stop }; taken = taken }) in
        (h.taken ++ h.pool.tasks ≡ (taken ++ fs) ++ (if stop then [] else f ∷ []))
        × (h.pool.stop ≡ stop)
  unfolding move enqueue
  enqueued f taken fs true = (sym (append-nil (taken ++ fs)), refl)
  enqueued f taken fs false = (sym (append_assoc taken fs (f ∷ [])), refl)

  -- After any sequence of enqueues, stops and rounds of workers, the tasks that have been taken,
  -- followed by those in the queue, are what they were before, followed by the tasks that were
  -- enqueued while the pool was not stopped, in their order.
  pub moves_in_order :
      (ms : List (Move A)) (h : History A)
      → (moves ms h).taken ++ (moves ms h).pool.tasks
        ≡ (h.taken ++ h.pool.tasks) ++ accepted ms h.pool.stop
  unfolding moves move accepted enqueue stop_pool worker_round
  moves_in_order [] h = sym (append-nil (h.taken ++ h.pool.tasks))
  moves_in_order (stops ∷ ms) h = moves_in_order ms (record h { pool = stop_pool h.pool })
  moves_in_order (works ∷ ms) h =
      let k = works_kept h.taken h.pool.tasks h.pool.stop in
      moves_in_order ms (move works h) ∙ ap₂ (λ x b. x ++ accepted ms b) k.0 k.1
  moves_in_order (enqueues f ∷ ms) h =
      let k = enqueued f h.taken h.pool.tasks h.pool.stop in
      moves_in_order ms (move (enqueues f) h)
      ∙ ap₂ (λ x b. x ++ accepted ms b) k.0 k.1
      ∙ append_assoc (h.taken ++ h.pool.tasks) (if h.pool.stop then [] else f ∷ [])
          (accepted ms h.pool.stop)

  drained :
      (n : ℕ) (taken fs : List A)
      → length fs ≤ n
      → let last =
          moves
            (replicate n works)
            (record { pool = record { tasks = fs; stop = true }; taken = taken }) in
        (last.taken ≡ taken ++ fs) × (worker_round last.pool ≡ leaves)
  unfolding moves move worker_round next_task
  drained zero taken [] le = (sym (append-nil taken), refl)
  drained zero taken (f ∷ fs) le = absurd (omega arith)
  drained (suc n) taken [] le = drained n taken [] (omega arith)
  drained (suc n) taken (f ∷ fs) le =
      let (p, q) = drained n (taken ++ f ∷ []) fs (omega arith) in
      (p ∙ append_assoc taken (f ∷ []) fs, q)

  -- Behind the stop, rounds of workers that are at least as many as there are tasks in the queue
  -- take all of these, in order, and the next round ends its worker.
  pub moves_drain :
      (n : ℕ) (h : History A)
      → length h.pool.tasks ≤ n
      → let last = moves (replicate n works) (move stops h) in
        (last.taken ≡ h.taken ++ h.pool.tasks) × (worker_round last.pool ≡ leaves)
  unfolding move stop_pool
  moves_drain n h le = drained n h.taken h.pool.tasks le
