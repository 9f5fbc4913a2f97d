-- ===== src/Store/RunTests.antt =====
-- Two keys with deadlines, of which one has come when the background thread wakes.
use redis_cpp.Base.{
  ℕ, ℤ, ◌≡◌, refl, false, true, some, none, List, [], ◌∷◌, codes, pos, leb_ℤ, wrap64, ◌+ℤ◌, ◌*ℤ◌,
  arith, bytes_eq, replicate,
}
use redis_cpp.Ttl.Heap.{MinHeap, schedule, push, pop_due}
use redis_cpp.Store.Shard.{Entry}
use redis_cpp.Store.Shard
use redis_cpp.Store.State.{KvStore, make_store, find, put, erase, shard_for, shard_index}
use redis_cpp.Store.Ops.{set_ex, set_internal, logged, scheduled, deadline, is_expired}
use redis_cpp.Store.Spec.{sets_ex, run_op}
use redis_cpp.Store.Sharding.{IsSound}
use redis_cpp.Store.Scheduled.{Covered}
use redis_cpp.Store.Covers.{run_op-Covered}
use redis_cpp.Store.Background.{on_ttl_expired, expire_step, expire_loop}
use redis_cpp.Store.Run.{Timed, run_ops, make_store-Covered, run_ops_swept}

abbrev two : KvStore
two = record {
  shards = replicate 2 [];
  n_shards = 2;
  ttl_mgr = some [];
  aof = none;
  stat_set = 0;
  stat_get = 0;
  stat_del = 0;
  stat_expired = 0;
}

make_two : make_store 2 none true ≡ some two
unfolding make_store
make_two = refl

two-IsSound : IsSound two
two-IsSound = omega arith

run_op-Covered_example :
    Covered (run_op (sets_ex (codes "k") (codes "v") (pos 1)) (pos 1000) (pos 1000) two).0
run_op-Covered_example =
    run_op-Covered (sets_ex (codes "k") (codes "v") (pos 1)) (pos 1000) (pos 1000) two two-IsSound
      (make_store-Covered 2 none two make_two)

abbrev day : List Timed
day =
    record { op = sets_ex (codes "k") (codes "v") (pos 1); now = pos 1000; later = pos 1000 }
    ∷ record { op = sets_ex (codes "j") (codes "w") (pos 10); now = pos 1000; later = pos 1000 }
    ∷ []

abbrev waiting : MinHeap
waiting =
    record { expire_at_ms = pos 2000; key = codes "k" }
    ∷ record { expire_at_ms = pos 11000; key = codes "j" }
    ∷ []

abbrev at_3000 : ℕ → ℤ
at_3000 _ = pos 3000

day-waiting : (run_ops day two).ttl_mgr ≡ some waiting
unfolding run_ops run_op set_ex deadline set_internal logged scheduled schedule push put wrap64 ◌+ℤ◌
    ◌*ℤ◌
day-waiting = refl

left_j :
    find (expire_loop 2 at_3000 at_3000 0 (run_ops day two)) (codes "j")
    ≡ some (record { value = codes "w"; expire_at_ms = pos 11000 })
unfolding run_ops run_op set_ex deadline set_internal logged scheduled schedule push put erase find
    shard_for shard_index Shard.find Shard.put Shard.erase bytes_eq expire_loop expire_step pop_due
    on_ttl_expired is_expired wrap64 ◌+ℤ◌ ◌*ℤ◌
left_j = refl

run_ops_swept_example : leb_ℤ (pos 11000) (pos 3000) ≡ false
run_ops_swept_example =
    run_ops_swept (pos 3000) at_3000 at_3000 2 none two day waiting 2 (λ _. refl) (λ _. refl)
      make_two day-waiting (omega arith) (codes "j")
      (record { value = codes "w"; expire_at_ms = pos 11000 }) left_j refl
