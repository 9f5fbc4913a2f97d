-- ===== src/Store/Run.antt =====
-- The life of a store: what main's threads make of a new one with any operations, and what the
-- background thread then finds.
use redis_cpp.Base.{
  ℕ, zero, suc, ◌≤◌, ◌≡◌, refl, sym, ap, ◌∙◌, Bool, true, false, Option, none, some, List, [], ◌∷◌,
  length, replicate, get_or, ◌==◌, ◌||◌, not, bit_and, ◌-◌, Bytes, ℤ, pos, ltb_ℤ, leb_ℤ,
  if◌then◌else◌, some-injective, subst,
}
use redis_cpp.Aof.Writer.{AofWriter}
use redis_cpp.Ttl.Heap.{MinHeap}
use redis_cpp.Store.Shard.{Entry, Shard}
use redis_cpp.Store.Shard
use redis_cpp.Store.State.{KvStore, make_store, shard_for, shard_index, find}
use redis_cpp.Store.Sharding.{IsSound, make_store-IsSound}
use redis_cpp.Store.Spec.{Op, run_op}
use redis_cpp.Store.Refine.{run_op-refines-spec_op}
use redis_cpp.Store.Scheduled.{Covered}
use redis_cpp.Store.Covers.{run_op-Covered}
use redis_cpp.Store.Background.{expire_loop}
use redis_cpp.Store.Swept.{expire_loop_sweeps}

-- An operation with what its calls of epoch_ms return.
pub record Timed : Type 0 where
  pub op : Op
  pub now : ℤ
  pub later : ℤ

unfoldable pub run_ops : List Timed → KvStore → KvStore
run_ops [] s = s
run_ops (o ∷ os) s = run_ops os (run_op o.op o.now o.later s).0

run_ops-Covered :
    (os : List Timed) (s : KvStore)
    → IsSound s
    → Covered s
    → IsSound (run_ops os s) × Covered (run_ops os s)
unfolding run_ops
run_ops-Covered [] s sound h = (sound, h)
run_ops-Covered (o ∷ os) s sound h =
    run_ops-Covered os (run_op o.op o.now o.later s).0
      (run_op-refines-spec_op o.op o.now o.later s sound).sound
      (run_op-Covered o.op o.now o.later s sound h)

no_shard : (n i : ℕ) → get_or {A = Shard} (replicate n []) i [] ≡ []
no_shard zero i = refl
no_shard (suc n) zero = refl
no_shard (suc n) (suc i) = no_shard n i

pub make_store-Covered :
    (n : ℕ) (aof : Option AofWriter) (s : KvStore) → make_store n aof true ≡ some s → Covered s
unfolding make_store find shard_for Shard.find
make_store-Covered n aof s e = by_guard ((n == 0) || not (bit_and n (n - 1) == 0)) e
  where
    new : KvStore
    new = record {
      shards = replicate n [];
      n_shards = n;
      ttl_mgr = some [];
      aof = aof;
      stat_set = 0;
      stat_get = 0;
      stat_del = 0;
      stat_expired = 0;
    }

    missing : (k : Bytes) (x : Entry) → find new k ≡ some x → ⊥
    missing k x q = nothing (sym (ap (Shard.find k) (no_shard n (shard_index new k))) ∙ q)
      where
        nothing : none ≡ some x → ⊥
        nothing y = cc

    new-Covered : Covered new
    new-Covered = record {
      heap = [];
      is_heap = refl;
      sorted = tt;
      waits = λ k x p q z. absurd (missing k x q);
    }

    by_guard : (b : Bool) → (if b then none else some new) ≡ some s → Covered s
    by_guard true q = absurd cc
    by_guard false q = subst Covered (some-injective q) new-Covered

-- Take a new store with a TtlManager, any operations on it at any times, and then the background
-- thread's loop with at least as many rounds as the heap has deadlines, where each time that the
-- loop reads is `start` or later, and what its callback reads is no earlier. An entry with a
-- positive deadline that is in the store then has a deadline later than `start`.
pub run_ops_swept :
    (start : ℤ) (clock clock' : ℕ → ℤ) (n : ℕ) (aof : Option AofWriter) (new : KvStore)
    (os : List Timed) (heap : MinHeap) (fuel : ℕ)
    → ((i : ℕ) → leb_ℤ start (clock i) ≡ true)
    → ((i : ℕ) → leb_ℤ (clock i) (clock' i) ≡ true)
    → make_store n aof true ≡ some new
    → (run_ops os new).ttl_mgr ≡ some heap
    → length heap ≤ fuel
    → (k : Bytes) (e : Entry) → find (expire_loop fuel clock clock' 0 (run_ops os new)) k ≡ some e
    → ltb_ℤ (pos 0) e.expire_at_ms ≡ true
    → leb_ℤ e.expire_at_ms start ≡ false
run_ops_swept start clock clock' n aof new os heap fuel from onwards made is_heap le =
    let (sound, h) =
      run_ops-Covered os new (make_store-IsSound n aof true new made)
        (make_store-Covered n aof new made) in
    expire_loop_sweeps start clock clock' from onwards fuel (run_ops os new) sound h
      (subst (λ m. length m ≤ fuel) (some-injective (sym is_heap ∙ h.is_heap)) le)
