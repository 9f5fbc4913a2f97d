-- ===== src/Pool/Tests.antt =====
-- A pool with two workers' rounds among three tasks, and its end.
use redis_cpp.Base.{◌≡◌, refl, ℕ, false, List, [], ◌∷◌, ◌++◌, replicate, arith}
use redis_cpp.Pool.Queue.{new_pool, leaves, worker_round}
use redis_cpp.Pool.Order.{
  Move, enqueues, stops, works, History, moves, move, accepted, moves_in_order, moves_drain,
}

abbrev busy_day : List (Move ℕ)
busy_day = enqueues 1 ∷ enqueues 2 ∷ works ∷ enqueues 3 ∷ works ∷ stops ∷ enqueues 4 ∷ works ∷ []

abbrev opened : History ℕ
opened = record { pool = new_pool; taken = [] }

moves_in_order_example :
    (moves busy_day opened).taken ++ (moves busy_day opened).pool.tasks
    ≡ [] ++ accepted busy_day false
moves_in_order_example = moves_in_order busy_day opened

busy_day_accepted : accepted busy_day false ≡ 1 ∷ 2 ∷ 3 ∷ []
unfolding accepted
busy_day_accepted = refl

abbrev half_done : History ℕ
half_done = record { pool = record { tasks = 5 ∷ 6 ∷ []; stop = false }; taken = 4 ∷ [] }

moves_drain_example :
    ((moves (replicate 3 works) (move stops half_done)).taken ≡ 4 ∷ 5 ∷ 6 ∷ [])
    × (worker_round (moves (replicate 3 works) (move stops half_done)).pool ≡ leaves)
moves_drain_example = moves_drain 3 half_done (omega arith)
