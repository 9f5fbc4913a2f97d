-- ===== src/Store/Covers.antt =====
-- Every operation of src/store/KvStore.cpp keeps each deadline of the store in the heap.
use redis_cpp.Base.{
  refl, sym, subst, inl, inr, Bool, true, false, ◌&&◌, Option, none, some, Bytes, ℕ, ℤ, pos, negsuc,
  leb_ℤ, if◌then◌else◌, Bool-cases,
}
use redis_cpp.Aof.Writer.{AofWriter, log_set, log_set_ex, log_del, log_expire}
use redis_cpp.Store.Shard.{Entry}
use redis_cpp.Store.State.{KvStore, bump, find, put, erase}
use redis_cpp.Store.Sharding.{IsSound, put-IsSound, erase-IsSound}
use redis_cpp.Store.Effects.{
  Kept, logged-Kept, stat_set-Kept, stat_get-Kept, stat_del-Kept, stat_expired-Kept,
}
use redis_cpp.Store.Ops.{
  is_expired, is_live, logged, scheduled, set_internal, set, set_absolute, set_ex, deadline, evict,
  get, del, retarget, expire, expire_at, persist,
}
use redis_cpp.Store.Scheduled.{
  NoKey, Covered, logged-CoveredBut, erase-Covered, put-Covered, put-scheduled-Covered,
  set_internal-Covered, Kept-Covered, logged-ttl_mgr,
}
use redis_cpp.Store.Spec.{
  Op, sets, sets_ex, sets_absolute, gets, dels, persists, ttls, lapses, expires, expires_at, run_op,
}
use redis_cpp.Store.Background.{on_ttl_expired}
use redis_cpp.Store.Sweep.{on_ttl_expired-evict}

module _ (s : KvStore) (sound : IsSound s) (h : Covered s) (k : Bytes) where
  pub evict-Covered : (now : ℤ) → Covered (evict s k now)
  unfolding evict
  evict-Covered now = by_entry (find s k)
    where
      gone : KvStore
      gone = record (erase s k) { stat_expired = bump s.stat_expired }

      gone-Covered : Covered gone
      gone-Covered =
          Kept-Covered (erase s k) gone (erase-Covered s sound h k)
            (stat_expired-Kept (erase s k) (bump s.stat_expired) (erase-IsSound s k sound)) refl

      by_test : (b : Bool) → Covered (if b then gone else s)
      by_test true = gone-Covered
      by_test false = h

      by_entry :
          (o : Option Entry)
          → Covered (elim o [ none ↦ s | some e ↦ if is_expired e now then gone else s ])
      by_entry none = h
      by_entry (some e) = by_test (is_expired e now)

module _ (s : KvStore) (sound : IsSound s) (h : Covered s) (k : Bytes) where
  get-Covered : (now later : ℤ) → Covered (get s k now later).0
  unfolding get
  get-Covered now later = by_entry (find s k)
    where
      c : KvStore
      c = record s { stat_get = bump s.stat_get }

      counted : Kept s c
      counted = stat_get-Kept s (bump s.stat_get) sound

      tested : Entry → Bool → KvStore × Option Bytes
      tested e b = if b then (c, some e.value) else (evict c k later, none)

      chosen : Option Entry → KvStore × Option Bytes
      chosen none = (c, none)
      chosen (some e) = tested e (is_live e now)

      by_test : (e : Entry) (b : Bool) → Covered (tested e b).0
      by_test e true = Kept-Covered s c h counted refl
      by_test e false = evict-Covered c counted.sound (Kept-Covered s c h counted refl) k later

      by_entry : (o : Option Entry) → Covered (chosen o).0
      by_entry none = Kept-Covered s c h counted refl
      by_entry (some e) = by_test e (is_live e now)

module _ (s : KvStore) (sound : IsSound s) (h : Covered s) (k : Bytes) where
  log_then_set-Covered :
      (n : ℕ) (f : AofWriter → AofWriter) (v : Bytes) (t : ℤ)
      → Covered (set_internal (logged (record s { stat_set = n }) f) k v t)
  log_then_set-Covered n f v t =
      let c : KvStore = record s { stat_set = n } in
      let a = stat_set-Kept s n sound in
      let b = logged-Kept c f a.sound in
      set_internal-Covered (logged c f) b.sound
        (Kept-Covered c (logged c f) (Kept-Covered s c h a refl) b (logged-ttl_mgr c f)) k v t

  retarget-Covered : (t now : ℤ) → Covered (retarget s k t now).0
  unfolding retarget
  retarget-Covered t now = by_entry (find s k)
    where
      moved : Entry → KvStore × Bool
      moved e = (
        scheduled (logged (put s k (record e { expire_at_ms = t })) (λ w. log_expire w k t)) k t,
        true,
      )

      chosen : Option Entry → KvStore × Bool
      chosen none = (s, false)
      chosen (some e) = if is_expired e now then (erase s k, false) else moved e

      by_test : (e : Entry) (b : Bool) → Covered (if b then (erase s k, false) else moved e).0
      by_test e true = erase-Covered s sound h k
      by_test e false =
          put-scheduled-Covered s sound h k (record e { expire_at_ms = t }) (λ w. log_expire w k t)

      by_entry : (o : Option Entry) → Covered (chosen o).0
      by_entry none = h
      by_entry (some e) = by_test e (is_expired e now)

  persist-Covered : (now : ℤ) → Covered (persist s k now).0
  unfolding persist
  persist-Covered now = by_entry (find s k)
    where
      kept : Entry → KvStore × Bool
      kept e =
          (logged (put s k (record e { expire_at_ms = negsuc 0 })) (λ w. log_set w k e.value), true)

      chosen : Option Entry → KvStore × Bool
      chosen none = (s, false)
      chosen (some e) =
          if leb_ℤ e.expire_at_ms (negsuc 0) && leb_ℤ (negsuc 0) e.expire_at_ms
          then (s, false)
          else if is_expired e now
          then (erase s k, false)
          else kept e

      by_tests :
          (e : Entry) (a b : Bool)
          → Covered (if a then (s, false) else if b then (erase s k, false) else kept e).0
      by_tests e true b = h
      by_tests e false true = erase-Covered s sound h k
      by_tests e false false =
          logged-CoveredBut NoKey (put s k (record e { expire_at_ms = negsuc 0 }))
            (put-Covered s sound h k (record e { expire_at_ms = negsuc 0 }) refl)
            (λ w. log_set w k e.value)
            (put-IsSound s k (record e { expire_at_ms = negsuc 0 }) sound)

      by_entry : (o : Option Entry) → Covered (chosen o).0
      by_entry none = h
      by_entry (some e) =
          by_tests e (leb_ℤ e.expire_at_ms (negsuc 0) && leb_ℤ (negsuc 0) e.expire_at_ms)
            (is_expired e now)

  del-Covered : Covered (del s k).0
  unfolding del
  del-Covered = by_entry (find s k)
    where
      c : KvStore
      c = record s { stat_del = bump s.stat_del }

      counted : Kept s c
      counted = stat_del-Kept s (bump s.stat_del) sound

      written : KvStore
      written = logged c (λ w. log_del w k)

      gone : Covered (erase written k)
      gone =
          let b = logged-Kept c (λ w. log_del w k) counted.sound in
          erase-Covered written b.sound
            (Kept-Covered c written (Kept-Covered s c h counted refl) b
              (logged-ttl_mgr c (λ w. log_del w k)))
            k

      chosen : Option Entry → KvStore × Bool
      chosen none = (erase written k, false)
      chosen (some _) = (erase written k, true)

      by_entry : (o : Option Entry) → Covered (chosen o).0
      by_entry none = gone
      by_entry (some e) = gone

-- If the shards of a store are all there, and the heap of its TtlManager is in order and holds
-- every positive deadline of an entry under that entry's key, then the same is true of the heap
-- after any operation (set, set_ex, set_absolute, get, del, expire, expire_at, persist, ttl and
-- the background thread's on_ttl_expired).
pub run_op-Covered :
    (op : Op) (now later : ℤ) (s : KvStore)
    → IsSound s
    → Covered s
    → Covered (run_op op now later s).0
unfolding run_op set set_absolute set_ex expire expire_at on_ttl_expired
run_op-Covered (sets k v) now later s sound h =
    log_then_set-Covered s sound h k (bump s.stat_set) (λ w. log_set w k v) v (negsuc 0)
run_op-Covered (sets_ex k v n) now later s sound h = elim (Bool-cases (leb_ℤ n (pos 0))) [
  | inl e ↦ rw e h
  | inr e ↦ rw e (
      log_then_set-Covered s sound h k (bump s.stat_set) (λ w. log_set_ex w k v (deadline now n)) v
        (deadline now n))
]
run_op-Covered (sets_absolute k v t) now later s sound h =
    log_then_set-Covered s sound h k (bump s.stat_set) (λ w. log_set_ex w k v t) v t
run_op-Covered (gets k) now later s sound h = get-Covered s sound h k now later
run_op-Covered (dels k) now later s sound h = del-Covered s sound h k
run_op-Covered (expires k n) now later s sound h = elim (Bool-cases (leb_ℤ n (pos 0))) [
  | inl e ↦ rw e h
  | inr e ↦ rw e (retarget-Covered s sound h k (deadline now n) later)
]
run_op-Covered (expires_at k t) now later s sound h = retarget-Covered s sound h k t now
run_op-Covered (persists k) now later s sound h = persist-Covered s sound h k now
run_op-Covered (ttls k) now later s sound h = h
run_op-Covered (lapses k) now later s sound h =
    subst Covered (sym (on_ttl_expired-evict s k now)) (evict-Covered s sound h k now)
