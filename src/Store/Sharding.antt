-- ===== src/Store/Sharding.antt =====
-- The shards behave as one map: what is assigned or erased under a key is seen under that key, and
-- under no other, wherever the hash puts it.
use Prim.Native.Nat.{digits, bit_and-bitwise}
use redis_cpp.Base.{
  ℕ, zero, suc, ◌-◌, ◌/◌, ◌≤◌, ◌<◌, min, ◌≡◌, ◌≢◌, refl, ap, ◌∙◌, inl, inr, bit_and, Bool, Option,
  none, some, List, [], Bytes, bytes_eq, bytes_eq_iff, ◌==◌, if◌then◌else◌, arith, get_or, set,
  length, length-set, get_or-set_self, get_or-set_ne, length-replicate, Bool-cases,
}
use redis_cpp.Aof.Writer.{AofWriter}
use redis_cpp.Store.Shard.{Entry, Shard}
use redis_cpp.Store.Shard
use redis_cpp.Store.State.{KvStore, make_store, hash_from, shard_index, shard_for, find, put, erase}

-- What the constructor checks and builds, and nothing changes.
pub record IsSound (s : KvStore) : Type 0 where
  pub all_there : length s.shards ≡ s.n_shards
  pub some_shard : 0 < s.n_shards

pub make_store-IsSound :
    (n : ℕ) (aof : Option AofWriter) (b : Bool) (s : KvStore)
    → make_store n aof b ≡ some s
    → IsSound s
unfolding make_store
make_store-IsSound n aof b s h =
    let none_yet : Shard = [] in ground (arith, length-replicate n none_yet)

-- Two stores with the same shards.
pub record SameMap (s t : KvStore) : Type 0 where
  pub shards : t.shards ≡ s.shards
  pub n_shards : t.n_shards ≡ s.n_shards

digits-min_le : (n a b : ℕ) → digits (λ _. zero) min n a b ≤ b
digits-min_le zero a b = omega arith
digits-min_le (suc n) zero b = omega arith
digits-min_le (suc n) (suc a) b = omega (arith, digits-min_le n (suc a / 2) (b / 2))

bit_and_le : (a b : ℕ) → bit_and a b ≤ b
bit_and_le a b = rw (bit_and-bitwise a b) (digits-min_le a a b)

-- Every key has a shard.
pub shard_index-lt : (s : KvStore) (k : Bytes) → IsSound s → shard_index s k < length s.shards
unfolding shard_index
shard_index-lt s k h =
    omega (arith, bit_and_le (hash_from 5381 k) (s.n_shards - 1), h.all_there, h.some_shard)

pub find-SameMap : (s t : KvStore) (k : Bytes) → SameMap s t → find t k ≡ find s k
unfolding find shard_for
find-SameMap s t k m = rw (m.shards, m.n_shards, shard_index) refl

-- A write to one place of a list, read at another place or at the same one.
module _ (ms : List Shard) (k j : Bytes) (r : Option Entry) (f : Shard → Shard) where
  read_write :
      (i i' : ℕ)
      → i < length ms
      → (k ≡ j → i ≡ i')
      → ((m : Shard) → Shard.find j (f m) ≡ (if bytes_eq k j then r else Shard.find j m))
      → Shard.find j (get_or (set ms i (f (get_or ms i []))) i' [])
        ≡ (if bytes_eq k j then r else Shard.find j (get_or ms i' []))
  read_write i i' h same law = elim (Bool-cases (i == i')) [
    | inl e ↦
        (let e' : i ≡ i' = ground arith in
          rw (← e', get_or-set_self ms i (f (get_or ms i [])) [] h) (law (get_or ms i [])))
    | inr e ↦
        (let ne : i ≢ i' = ground arith in
          rw (get_or-set_ne ms i i' (f (get_or ms i [])) [] ne) (elim (Bool-cases (bytes_eq k j)) [
            | inl b ↦ absurd (ne (same ((bytes_eq_iff k j).0 b)))
            | inr b ↦ rw b refl
          ]))
  ]

module _ (s : KvStore) (k j : Bytes) (sound : IsSound s) where
  one_index : k ≡ j → shard_index s k ≡ shard_index s j
  one_index e = ap (shard_index s) e

  -- On a store whose shards are all there, a key that is looked up after an assignment has the
  -- assigned entry if it is the assigned key, and otherwise the entry it had, wherever the hash
  -- puts the two.
  pub find-put : (e : Entry) → find (put s k e) j ≡ (if bytes_eq k j then some e else find s j)
  unfolding find put shard_for
  find-put e =
      read_write s.shards k j (some e) (Shard.put k e) (shard_index s k) (shard_index s j)
        (shard_index-lt s k sound) one_index (Shard.find-put k j e)

  -- On a store whose shards are all there, a key that is looked up after an erasure has no entry
  -- if it is the erased key, and otherwise the entry it had.
  pub find-erase : find (erase s k) j ≡ (if bytes_eq k j then none else find s j)
  unfolding find erase shard_for
  find-erase =
      read_write s.shards k j none (Shard.erase k) (shard_index s k) (shard_index s j)
        (shard_index-lt s k sound) one_index (Shard.find-erase k j)

pub put-IsSound : (s : KvStore) (k : Bytes) (e : Entry) → IsSound s → IsSound (put s k e)
unfolding put
put-IsSound s k e h = record {
  all_there = length-set s.shards _ _ ∙ h.all_there;
  some_shard = h.some_shard;
}

pub erase-IsSound : (s : KvStore) (k : Bytes) → IsSound s → IsSound (erase s k)
unfolding erase
erase-IsSound s k h = record {
  all_there = length-set s.shards _ _ ∙ h.all_there;
  some_shard = h.some_shard;
}

pub SameMap-IsSound : (s t : KvStore) → SameMap s t → IsSound s → IsSound t
SameMap-IsSound s t m h = record {
  all_there = rw (m.shards, m.n_shards) h.all_there;
  some_shard = rw m.n_shards h.some_shard;
}
