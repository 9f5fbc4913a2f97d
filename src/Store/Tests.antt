-- ===== src/Store/Tests.antt =====
-- Runs of the store on small inputs, and its theorems at inputs that meet their hypotheses.
use redis_cpp.Base.{
  ℕ, ℤ, ◌≡◌, refl, true, none, some, codes, pos, negsuc, [], arith, replicate, ltb, if◌then◌else◌,
  bytes_eq,
}
use redis_cpp.Ttl.Heap.{schedule, push}
use redis_cpp.Store.Shard
use redis_cpp.Store.State.{KvStore, make_store, find, put, shard_for, shard_index}
use redis_cpp.Store.Sharding.{IsSound}
use redis_cpp.Store.Ops.{
  get, set_absolute, set_internal, logged, scheduled, set_ex, ttl, evict, is_live,
}
use redis_cpp.Store.Spec.{sets, run_op, spec_op}
use redis_cpp.Store.Refine.{Agrees, run_op-refines-spec_op}
use redis_cpp.Store.Background.{expire_loop}
use redis_cpp.Store.Sweep.{find-expire_loop}
use redis_cpp.Store.Expiry.{get-set_ex, ttl-set_ex, find-evict_live, get-set_ex_overflow}

-- Four empty shards, with a heap and no log.
abbrev four : KvStore
four = record {
  shards = replicate 4 [];
  n_shards = 4;
  ttl_mgr = some [];
  aof = none;
  stat_set = 0;
  stat_get = 0;
  stat_del = 0;
  stat_expired = 0;
}

make_four : make_store 4 none true ≡ some four
unfolding make_store
make_four = refl

make_three : make_store 3 none true ≡ none
unfolding make_store
make_three = refl

four-IsSound : IsSound four
four-IsSound = omega arith

run_op-refines-spec_op_example :
    Agrees
      (run_op (sets (codes "k") (codes "v")) (pos 1) (pos 1) four)
      (spec_op (sets (codes "k") (codes "v")) (pos 1) (pos 1) (find four))
run_op-refines-spec_op_example =
    run_op-refines-spec_op (sets (codes "k") (codes "v")) (pos 1) (pos 1) four four-IsSound

-- A store with one key, which is live until 5000.
abbrev with_k : KvStore
with_k = (set_absolute four (codes "k") (codes "v") (pos 5000)).0

with_k-IsSound : IsSound with_k
unfolding set_absolute set_internal scheduled logged put schedule push find Shard.put shard_for
    shard_index
with_k-IsSound = record { all_there = refl; some_shard = omega arith }

found_k : find with_k (codes "k") ≡ some (record { value = codes "v"; expire_at_ms = pos 5000 })
unfolding set_absolute set_internal scheduled logged put schedule push find Shard.find Shard.put
    shard_for shard_index bytes_eq
found_k = refl

live_k : is_live (record { value = codes "v"; expire_at_ms = pos 5000 }) (pos 4999) ≡ true
unfolding is_live
live_k = refl

get-set_ex_example :
    (get
      (set_ex four (codes "k") (codes "v") (pos 2) (pos 1000)).0
      (codes "k")
      (pos 2999)
      (pos 3000)).1
    ≡ (if ltb 2999 3000 then some (codes "v") else none)
get-set_ex_example =
    get-set_ex four (codes "k") (codes "v") 1000 2 four-IsSound (omega arith) (omega arith) 2999
      (pos 3000)

ttl-set_ex_example :
    ttl (set_ex four (codes "k") (codes "v") (pos 2) (pos 1000)).0 (codes "k") (pos 1500)
    ≡ (if ltb 1500 3000 then pos 1 else negsuc 1)
ttl-set_ex_example =
    ttl-set_ex four (codes "k") (codes "v") 1000 2 four-IsSound (omega arith) (omega arith) 1500
      (omega arith)

find-evict_live_example :
    find (evict with_k (codes "k") (pos 4999)) (codes "k")
    ≡ some (record { value = codes "v"; expire_at_ms = pos 5000 })
find-evict_live_example =
    find-evict_live with_k (codes "k") (codes "k") (pos 4999)
      (record { value = codes "v"; expire_at_ms = pos 5000 }) with_k-IsSound found_k live_k

get-set_ex_overflow_example :
    ((set_ex four (codes "k") (codes "v") (pos 9223372036854775807) (pos 5000)).1 ≡ true)
    × ((get
          (set_ex four (codes "k") (codes "v") (pos 9223372036854775807) (pos 5000)).0
          (codes "k")
          (pos 5000)
          (pos 5000)).1
        ≡ none)
get-set_ex_overflow_example =
    get-set_ex_overflow four (codes "k") (codes "v") 5000 5000 (pos 5000) four-IsSound (omega arith)
      (omega arith) (omega arith)

-- The deadline of the key has moved from 1000 to 5000, and the heap has both.
abbrev moved : KvStore
moved =
    (set_absolute (set_absolute four (codes "k") (codes "v") (pos 1000)).0 (codes "k") (codes "v")
      (pos 5000)).0

moved-IsSound : IsSound moved
unfolding set_absolute set_internal scheduled logged put schedule push find Shard.find Shard.put
    shard_for shard_index bytes_eq
moved-IsSound = record { all_there = refl; some_shard = omega arith }

found_moved : find moved (codes "k") ≡ some (record { value = codes "v"; expire_at_ms = pos 5000 })
unfolding set_absolute set_internal scheduled logged put schedule push find Shard.find Shard.put
    shard_for shard_index bytes_eq
found_moved = refl

abbrev at_2000 : ℕ → ℤ
at_2000 _ = pos 2000

live_2000 :
    (n : ℕ) → is_live (record { value = codes "v"; expire_at_ms = pos 5000 }) (at_2000 n) ≡ true
unfolding is_live
live_2000 n = refl

find-expire_loop_example :
    find (expire_loop 3 at_2000 at_2000 0 moved) (codes "k")
    ≡ some (record { value = codes "v"; expire_at_ms = pos 5000 })
find-expire_loop_example =
    find-expire_loop 3 at_2000 at_2000 moved (codes "k")
      (record { value = codes "v"; expire_at_ms = pos 5000 }) moved-IsSound found_moved live_2000
