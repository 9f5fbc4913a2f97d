-- ===== src/Store/Sweep.antt =====
-- The background thread's loop never takes a key that is live.
use redis_cpp.Base.{
  ℕ, zero, suc, ◌+◌, ◌≡◌, refl, ap, subst, Option-cases, some-injective, inl, inr, ◌∙◌, true,
  Option, none, some, Bytes, ℤ,
}
use redis_cpp.Ttl.Heap.{MinHeap, pop_due}
use redis_cpp.Store.Shard.{Entry}
use redis_cpp.Store.State.{KvStore, find}
use redis_cpp.Store.Sharding.{IsSound, find-SameMap, SameMap, SameMap-IsSound}
use redis_cpp.Store.Ops.{is_live, evict}
use redis_cpp.Store.Spec.{lapses, run_op}
use redis_cpp.Store.Refine.{run_op-refines-spec_op}
use redis_cpp.Store.Expiry.{find-evict_live}
use redis_cpp.Store.Background.{on_ttl_expired, expire_step, expire_loop}

pub on_ttl_expired-IsSound :
    (s : KvStore) (k : Bytes) (now : ℤ) → IsSound s → IsSound (on_ttl_expired s k now)
unfolding run_op
on_ttl_expired-IsSound s k now h = (run_op-refines-spec_op (lapses k) now now s h).sound

pub on_ttl_expired-evict :
    (s : KvStore) (k : Bytes) (now : ℤ) → on_ttl_expired s k now ≡ evict s k now
unfolding on_ttl_expired evict
on_ttl_expired-evict s k now = refl

-- A store that keeps the entry `e` under `j`.
record Keeps (j : Bytes) (e : Entry) (s : KvStore) : Type 0 where
  sound : IsSound s
  there : find s j ≡ some e

on_ttl_expired-Keeps :
    (s : KvStore) (k j : Bytes) (now : ℤ) (e : Entry)
    → Keeps j e s
    → is_live e now ≡ true
    → Keeps j e (on_ttl_expired s k now)
on_ttl_expired-Keeps s k j now e h l = record {
  sound = on_ttl_expired-IsSound s k now h.sound;
  there =
      ap (λ t. find t j) (on_ttl_expired-evict s k now)
      ∙ find-evict_live s k j now e h.sound h.there l;
}

heap-Keeps :
    (s : KvStore) (h : Option MinHeap) (j : Bytes) (e : Entry)
    → Keeps j e s
    → Keeps j e (record s { ttl_mgr = h })
heap-Keeps s h j e k =
    let same : SameMap s (record s { ttl_mgr = h }) = record { shards = refl; n_shards = refl } in
    record {
      sound = SameMap-IsSound s (record s { ttl_mgr = h }) same k.sound;
      there = find-SameMap s (record s { ttl_mgr = h }) j same ∙ k.there;
    }

popped-Keeps :
    (s : KvStore) (r : Option (Bytes × MinHeap)) (later : ℤ) (j : Bytes) (e : Entry) (t : KvStore)
    → Keeps j e s
    → is_live e later ≡ true
    → (elim r [
      | none ↦ none
      | some (key, rest) ↦ some (on_ttl_expired (record s { ttl_mgr = some rest }) key later)
    ])
      ≡ some t
    → Keeps j e t
popped-Keeps s none later j e t k l h = absurd cc
popped-Keeps s (some (key, rest)) later j e t k l h = subst (Keeps j e) (some-injective h) (
    on_ttl_expired-Keeps (record s { ttl_mgr = some rest }) key j later e
      (heap-Keeps s (some rest) j e k) l)

swept-Keeps :
    (s : KvStore) (m : Option MinHeap) (now later : ℤ) (j : Bytes) (e : Entry) (t : KvStore)
    → Keeps j e s
    → is_live e later ≡ true
    → (elim m [
      | none ↦ none
      | some h ↦ (elim (pop_due now h) [
        | none ↦ none
        | some (key, rest) ↦ some (on_ttl_expired (record s { ttl_mgr = some rest }) key later)
      ])
    ])
      ≡ some t
    → Keeps j e t
swept-Keeps s none now later j e t k l h = absurd cc
swept-Keeps s (some heap) now later j e t k l h =
    popped-Keeps s (pop_due now heap) later j e t k l h

expire_step-Keeps :
    (s : KvStore) (now later : ℤ) (j : Bytes) (e : Entry) (t : KvStore)
    → Keeps j e s
    → is_live e later ≡ true
    → expire_step s now later ≡ some t
    → Keeps j e t
unfolding expire_step
expire_step-Keeps s now later j e t k l h = swept-Keeps s s.ttl_mgr now later j e t k l h

expire_loop-Keeps :
    (fuel : ℕ) (clock clock' : ℕ → ℤ) (i : ℕ) (s : KvStore) (j : Bytes) (e : Entry)
    → ((n : ℕ) → is_live e (clock' n) ≡ true)
    → Keeps j e s
    → Keeps j e (expire_loop fuel clock clock' i s)
unfolding expire_loop
expire_loop-Keeps zero clock clock' i s j e l k = k
expire_loop-Keeps (suc fuel) clock clock' i s j e l k =
    elim (Option-cases (expire_step s (clock i) (clock' i))) [
      | inl h ↦ rw (h, expire_loop) k
      | inr (t, h) ↦
          rw (h, expire_loop)
            (expire_loop-Keeps fuel clock clock' (i + 1) t j e l
              (expire_step-Keeps s (clock i) (clock' i) j e t k (l i) h))
    ]

-- On a store whose shards are all there, any number of rounds of the background thread's loop
-- over due deadlines leaves an entry where it was that is live at every time that the loop's
-- callback reads, whatever deadlines the heap holds.
pub find-expire_loop :
    (fuel : ℕ) (clock clock' : ℕ → ℤ) (s : KvStore) (j : Bytes) (e : Entry)
    → IsSound s
    → find s j ≡ some e
    → ((n : ℕ) → is_live e (clock' n) ≡ true)
    → find (expire_loop fuel clock clock' 0 s) j ≡ some e
find-expire_loop fuel clock clock' s j e h f l =
    (expire_loop-Keeps fuel clock clock' 0 s j e l (record { sound = h; there = f })).there
