-- ===== src/Recovery/Lost.antt =====
-- What the callbacks of src/main.cpp lose: a record whose deadline has passed is skipped, and the
-- records before and behind it are not told.
use redis_cpp.Base.{
  ℕ, ◌≡◌, refl, ap, ◌∙◌, Bool, true, false, Option, none, some, List, [], ◌∷◌, Bytes, bytes_eq_refl,
  ℤ, pos, negsuc, leb_ℤ, arith, get_or-replicate,
}
use redis_cpp.Resp.Parser.{returns}
use redis_cpp.Aof.Writer.{AofWriter}
use redis_cpp.Aof.Replay.{Call, set_call, set_ex_call, expire_call}
use redis_cpp.Aof.RoundTrip.{AllLoggable, log_of, run_calls, replay-log_of}
use redis_cpp.Store.Shard.{Entry, Shard}
use redis_cpp.Store.Shard
use redis_cpp.Store.State.{KvStore, set_aof, find, shard_for, shard_index}
use redis_cpp.Store.Sharding.{IsSound, find-SameMap}
use redis_cpp.Store.Ops.{set, expire_at, retarget, is_live, get}
use redis_cpp.Store.Expiry.{get_found, get_missing}
use redis_cpp.Store.Spec.{sets, run_op, spec_op, entry}
use redis_cpp.Store.Refine.{run_op-refines-spec_op}
use redis_cpp.Commands.Command.{Times}
use redis_cpp.Recovery.Startup.{restore, fresh, restore_next, start}

pub fresh-IsSound : IsSound fresh
unfolding fresh
fresh-IsSound = omega arith

pub find-fresh : (k : Bytes) → find fresh k ≡ none
unfolding find shard_for fresh Shard.find
find-fresh k =
    let none_yet : Shard = [] in rw (get_or-replicate 16 (shard_index fresh k) none_yet) refl

found-set : (s : KvStore) (k v : Bytes) → IsSound s → find (set s k v).0 k ≡ entry v (negsuc 0)
found-set s k v h =
    rw (as_op s) ((run_op-refines-spec_op (sets k v) (pos 0) (pos 0) s h).found k ∙ spec_found)
  where
    as_op : (s : KvStore) → (set s k v).0 ≡ (run_op (sets k v) (pos 0) (pos 0) s).0
    as_op s = unfold run_op in refl

    spec_found : (spec_op (sets k v) (pos 0) (pos 0) (find s)).0 k ≡ entry v (negsuc 0)
    spec_found = unfold spec_op in rw (bytes_eq_refl k) refl

pub find-set_aof :
    (s : KvStore) (aof : Option AofWriter) (k : Bytes) → find (set_aof s aof) k ≡ find s k
unfolding set_aof
find-set_aof s aof k =
    find-SameMap s (record s { aof = aof }) k (record { shards = refl; n_shards = refl })

restore-set_ex_passed :
    (t : Times) (k v : Bytes) (at_ms : ℤ) (s : KvStore)
    → leb_ℤ at_ms t.now ≡ true
    → restore t (set_ex_call k v at_ms) s ≡ s
unfolding restore
restore-set_ex_passed t k v at_ms s passed = rw passed refl

retarget_missing :
    (s : KvStore) (k : Bytes) (at_ms now : ℤ)
    → find s k ≡ none
    → retarget s k at_ms now ≡ (s, false)
unfolding retarget
retarget_missing s k at_ms now missing = rw (missing, retarget) refl

restore-expire_missing :
    (t : Times) (k : Bytes) (at_ms : ℤ) (s : KvStore)
    → leb_ℤ at_ms t.now ≡ false
    → find s k ≡ none
    → restore t (expire_call k at_ms) s ≡ s
unfolding restore expire_at
restore-expire_missing t k at_ms s ahead missing =
    rw ahead (ap (λ r. r.0) (retarget_missing s k at_ms t.later missing))

module _ (can_reserve can_resize : ℕ → Bool) (clock : ℕ → Times) (aof : Option AofWriter) where
  pub start-log_of :
      (cs : List Call)
      → AllLoggable can_reserve can_resize cs
      → start can_reserve can_resize clock (some (log_of cs)) aof
        ≡ returns
            (set_aof (run_calls can_reserve can_resize (restore_next clock) cs (0, fresh)).1 aof)
  unfolding start
  start-log_of cs h =
      rw (replay-log_of can_reserve can_resize (restore_next clock) cs (0, fresh) h, start) refl

  -- What the two records leave: the second is skipped.
  skipped-set_ex :
      (k old new : Bytes) (at_ms : ℤ)
      → leb_ℤ at_ms (clock 1).now ≡ true
      → (run_calls can_reserve can_resize
          (restore_next clock)
          (set_call k old ∷ set_ex_call k new at_ms ∷ [])
          (0, fresh)).1
        ≡ (set fresh k old).0
  unfolding run_calls restore_next restore
  skipped-set_ex k old new at_ms passed = rw passed refl

  -- A log that sets a key to one value and then to another with a deadline, replayed when that
  -- deadline has passed, leaves a store in which get answers the first value at every time; the
  -- two records must be ones that replay-log_of allows.
  pub start_brings_back :
      (k old new : Bytes) (at_ms now later : ℤ)
      → AllLoggable can_reserve can_resize (set_call k old ∷ set_ex_call k new at_ms ∷ [])
      → leb_ℤ at_ms (clock 1).now ≡ true
      → (s : KvStore) × (start can_reserve can_resize clock
            (some (log_of (set_call k old ∷ set_ex_call k new at_ms ∷ [])))
            aof
          ≡ returns s)
        × ((get s k now later).1 ≡ some old)
  start_brings_back k old new at_ms now later h passed = (
    set_aof (set fresh k old).0 aof,
    start-log_of _ h ∙ ap (λ t. returns (set_aof t aof)) (skipped-set_ex k old new at_ms passed),
    get_found _ k (record { value = old; expire_at_ms = negsuc 0 }) now later there
        ∙ (unfold is_live in refl),
  )
    where
      there : find (set_aof (set fresh k old).0 aof) k ≡ entry old (negsuc 0)
      there = find-set_aof _ aof k ∙ found-set fresh k old fresh-IsSound

  -- What the two records leave: the first is skipped, and the second finds no key.
  missing-expire :
      (k v : Bytes) (first second : ℤ)
      → leb_ℤ first (clock 0).now ≡ true
      → leb_ℤ second (clock 1).now ≡ false
      → (run_calls can_reserve can_resize
          (restore_next clock)
          (set_ex_call k v first ∷ expire_call k second ∷ [])
          (0, fresh)).1
        ≡ fresh
  unfolding run_calls restore_next
  missing-expire k v first second passed ahead =
      ap (restore (clock 1) (expire_call k second))
        (restore-set_ex_passed (clock 0) k v first fresh passed)
      ∙ restore-expire_missing (clock 1) k second fresh ahead (find-fresh k)

  -- A log that sets a key with a deadline and then moves the deadline further off, replayed when
  -- the first deadline has passed and the second has not, leaves a store in which get finds no
  -- such key; the two records must be ones that replay-log_of allows.
  pub start_forgets :
      (k v : Bytes) (first second now later : ℤ)
      → AllLoggable can_reserve can_resize (set_ex_call k v first ∷ expire_call k second ∷ [])
      → leb_ℤ first (clock 0).now ≡ true
      → leb_ℤ second (clock 1).now ≡ false
      → (s : KvStore) × (start can_reserve can_resize clock
            (some (log_of (set_ex_call k v first ∷ expire_call k second ∷ [])))
            aof
          ≡ returns s)
        × ((get s k now later).1 ≡ none)
  start_forgets k v first second now later h passed ahead = (
    set_aof fresh aof,
    start-log_of _ h
        ∙ ap (λ t. returns (set_aof t aof)) (missing-expire k v first second passed ahead),
    get_missing _ k now later (find-set_aof fresh aof k ∙ find-fresh k),
  )
