-- ===== src/Store/Effects.antt =====
-- What each operation of the store leaves under each key, and that every operation keeps the shards
-- in place.
use redis_cpp.Base.{
  ℕ, ◌≡◌, refl, ◌∙◌, inl, inr, Option, none, some, Bytes, bytes_eq, ℤ, pos, ltb_ℤ, not,
  if◌then◌else◌, arith, Bool-cases, Option-cases,
}
use redis_cpp.Aof.Writer.{AofWriter}
use redis_cpp.Store.Shard.{Entry}
use redis_cpp.Store.State.{KvStore, find, put, erase}
use redis_cpp.Store.Sharding.{
  IsSound, SameMap, find-SameMap, find-put, find-erase, put-IsSound, erase-IsSound, SameMap-IsSound,
}
use redis_cpp.Store.Ops.{is_live, is_expired, logged, scheduled, set_internal}

-- The two tests in the code are opposites.
pub is_expired-not_live : (e : Entry) (now : ℤ) → is_expired e now ≡ not (is_live e now)
unfolding is_expired is_live
is_expired-not_live e now = ground arith

logged-SameMap : (s : KvStore) (f : AofWriter → AofWriter) → SameMap s (logged s f)
logged-SameMap s f = elim (Option-cases s.aof) [
  | inl e ↦ record {
    shards = unfold logged in rw (e, logged) refl;
    n_shards = unfold logged in rw (e, logged) refl;
  }
  | inr (w, e) ↦ record {
    shards = unfold logged in rw (e, logged) refl;
    n_shards = unfold logged in rw (e, logged) refl;
  }
]

scheduled-SameMap : (s : KvStore) (k : Bytes) (t : ℤ) → SameMap s (scheduled s k t)
scheduled-SameMap s k t = elim (Option-cases s.ttl_mgr) [
  | inl e ↦ record {
    shards = unfold scheduled in rw (e, scheduled) refl;
    n_shards = unfold scheduled in rw (e, scheduled) refl;
  }
  | inr (w, e) ↦ record {
    shards = unfold scheduled in rw (e, scheduled) refl;
    n_shards = unfold scheduled in rw (e, scheduled) refl;
  }
]

-- A store after some of its entries were written: sound, and with the entry `o` under `k` alone changed.
pub record Wrote (s t : KvStore) (k : Bytes) (o : Option Entry) : Type 0 where
  pub sound : IsSound t
  pub found : (j : Bytes) → find t j ≡ (if bytes_eq k j then o else find s j)

-- A store in which every key has the entry that it had.
pub record Kept (s t : KvStore) : Type 0 where
  pub sound : IsSound t
  pub found : (j : Bytes) → find t j ≡ find s j

pub SameMap-Kept : (s t : KvStore) → IsSound s → SameMap s t → Kept s t
SameMap-Kept s t h m = record { sound = SameMap-IsSound s t m h; found = λ j. find-SameMap s t j m }

pub Kept-Wrote :
    (s t u : KvStore) (k : Bytes) (o : Option Entry) → Kept s t → Wrote t u k o → Wrote s u k o
Kept-Wrote s t u k o a b = record { sound = b.sound; found = λ j. b.found j ∙ rw (a.found j) refl }

pub Wrote-Kept :
    (s t u : KvStore) (k : Bytes) (o : Option Entry) → Wrote s t k o → Kept t u → Wrote s u k o
Wrote-Kept s t u k o a b = record { sound = b.sound; found = λ j. b.found j ∙ a.found j }

pub put-Wrote : (s : KvStore) (k : Bytes) (e : Entry) → IsSound s → Wrote s (put s k e) k (some e)
put-Wrote s k e h = record { sound = put-IsSound s k e h; found = λ j. find-put s k j h e }

pub erase-Wrote : (s : KvStore) (k : Bytes) → IsSound s → Wrote s (erase s k) k none
erase-Wrote s k h = record { sound = erase-IsSound s k h; found = λ j. find-erase s k j h }

pub logged-Kept : (s : KvStore) (f : AofWriter → AofWriter) → IsSound s → Kept s (logged s f)
logged-Kept s f h = SameMap-Kept s (logged s f) h (logged-SameMap s f)

pub scheduled-Kept : (s : KvStore) (k : Bytes) (t : ℤ) → IsSound s → Kept s (scheduled s k t)
scheduled-Kept s k t h = SameMap-Kept s (scheduled s k t) h (scheduled-SameMap s k t)

pub set_internal-Wrote :
    (s : KvStore) (k v : Bytes) (t : ℤ)
    → IsSound s
    → Wrote s (set_internal s k v t) k (some (record { value = v; expire_at_ms = t }))
unfolding set_internal
set_internal-Wrote s k v t h =
    let e : Entry = record { value = v; expire_at_ms = t } in
    let stored = put-Wrote s k e h in
    elim (Bool-cases (ltb_ℤ (pos 0) t)) [
      | inr q ↦ rw q stored
      | inl q ↦ rw q (Wrote-Kept s _ _ k _ stored (scheduled-Kept (put s k e) k t stored.sound))
    ]

-- What set and set_absolute do behind their counter.
pub log_then_set-Wrote :
    (s c : KvStore) (f : AofWriter → AofWriter) (k v : Bytes) (t : ℤ)
    → Kept s c
    → Wrote s (set_internal (logged c f) k v t) k (some (record { value = v; expire_at_ms = t }))
log_then_set-Wrote s c f k v t a =
    let b = logged-Kept c f a.sound in
    Kept-Wrote s c _ k _ a (Kept-Wrote c _ _ k _ b (set_internal-Wrote (logged c f) k v t b.sound))

-- The counters are no part of the map.
module _ (s : KvStore) (n : ℕ) (h : IsSound s) where
  pub stat_set-Kept : Kept s (record s { stat_set = n })
  stat_set-Kept = SameMap-Kept s _ h (record { shards = refl; n_shards = refl })

  pub stat_get-Kept : Kept s (record s { stat_get = n })
  stat_get-Kept = SameMap-Kept s _ h (record { shards = refl; n_shards = refl })

  pub stat_del-Kept : Kept s (record s { stat_del = n })
  stat_del-Kept = SameMap-Kept s _ h (record { shards = refl; n_shards = refl })

  pub stat_expired-Kept : Kept s (record s { stat_expired = n })
  stat_expired-Kept = SameMap-Kept s _ h (record { shards = refl; n_shards = refl })
