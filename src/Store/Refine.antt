-- ===== src/Store/Refine.antt =====
-- The store refines its specification.
use redis_cpp.Base.{
  ◌≡◌, refl, inl, inr, Bool, true, false, ◌&&◌, Option, none, some, Bytes, ℤ, pos, negsuc, leb_ℤ,
  arith, Bool-cases, Option-cases,
}
use redis_cpp.Store.Shard.{Entry}
use redis_cpp.Store.State.{KvStore, find, put, erase, bump}
use redis_cpp.Store.Sharding.{IsSound}
use redis_cpp.Store.Ops.{
  is_live, scheduled, set, set_absolute, set_ex, evict, get, del, retarget, expire, expire_at,
  persist, ttl, deadline, logged,
}
use redis_cpp.Store.Background.{on_ttl_expired}
use redis_cpp.Store.Effects.{
  Wrote, Kept, is_expired-not_live, Kept-Wrote, Wrote-Kept, put-Wrote, erase-Wrote, logged-Kept,
  scheduled-Kept, log_then_set-Wrote, stat_set-Kept, stat_get-Kept, stat_del-Kept,
  stat_expired-Kept,
}
use redis_cpp.Aof.Writer.{log_set, log_del, log_expire}
use redis_cpp.Store.Spec.{
  Op, sets, sets_ex, sets_absolute, gets, dels, expires, expires_at, persists, ttls, lapses, Reply,
  flag, bulk, run_op, spec_op, Model, assign, entry, lapse, with_live, flagged, nothing,
}

-- The code's outcome agrees with the specification's.
pub record Agrees (t : KvStore × Reply) (m : Model × Reply) : Type 0 where
  pub sound : IsSound t.0
  pub found : (j : Bytes) → find t.0 j ≡ m.0 j
  pub reply : t.1 ≡ m.1

Wrote-Agrees :
    (s t : KvStore) (k : Bytes) (o : Option Entry) (r : Reply)
    → Wrote s t k o
    → Agrees (t, r) (assign (find s) k o, r)
Wrote-Agrees s t k o r w = record { sound = w.sound; found = w.found; reply = refl }

Kept-Agrees : (s t : KvStore) (r : Reply) → Kept s t → Agrees (t, r) (find s, r)
Kept-Agrees s t r w = record { sound = w.sound; found = w.found; reply = refl }

pub same : (s : KvStore) → IsSound s → Kept s s
same s h = record { sound = h; found = λ j. refl }

set-Agrees :
    (s : KvStore) (k v : Bytes) (now later : ℤ)
    → IsSound s
    → Agrees (run_op (sets k v) now later s) (spec_op (sets k v) now later (find s))
unfolding run_op spec_op set
set-Agrees s k v now later h =
    Wrote-Agrees s _ k _ _ (log_then_set-Wrote s _ _ k v (negsuc 0) (stat_set-Kept s _ h))

set_absolute-Agrees :
    (s : KvStore) (k v : Bytes) (t now later : ℤ)
    → IsSound s
    → Agrees
        (run_op (sets_absolute k v t) now later s)
        (spec_op (sets_absolute k v t) now later (find s))
unfolding run_op spec_op set_absolute
set_absolute-Agrees s k v t now later h =
    Wrote-Agrees s _ k _ _ (log_then_set-Wrote s _ _ k v t (stat_set-Kept s _ h))

set_ex-Agrees :
    (s : KvStore) (k v : Bytes) (n now later : ℤ)
    → IsSound s
    → Agrees (run_op (sets_ex k v n) now later s) (spec_op (sets_ex k v n) now later (find s))
unfolding run_op spec_op set_ex
set_ex-Agrees s k v n now later h = elim (Bool-cases (leb_ℤ n (pos 0))) [
  | inl e ↦ rw e (Kept-Agrees s s (flag false) (same s h))
  | inr e ↦
      rw e (
        Wrote-Agrees s _ k _ _
          (log_then_set-Wrote s _ _ k v (deadline now n) (stat_set-Kept s _ h)))
]

deleted : KvStore → Bytes → KvStore
deleted s k = erase (logged (record s { stat_del = bump s.stat_del }) (λ w. log_del w k)) k

deleted-Wrote : (s : KvStore) (k : Bytes) → IsSound s → Wrote s (deleted s k) k none
unfolding deleted
deleted-Wrote s k h =
    let a = stat_del-Kept s (bump s.stat_del) h in
    let b = logged-Kept _ (λ w. log_del w k) a.sound in
    Kept-Wrote s _ _ k none a (Kept-Wrote _ _ _ k none b (erase-Wrote _ k b.sound))

del-Agrees :
    (s : KvStore) (k : Bytes) (now later : ℤ)
    → IsSound s
    → Agrees (run_op (dels k) now later s) (spec_op (dels k) now later (find s))
unfolding run_op spec_op del deleted
del-Agrees s k now later h = elim (Option-cases (find s k)) [
  | inl e ↦ rw (e, del) (Wrote-Agrees s _ k none _ (deleted-Wrote s k h))
  | inr (x, e) ↦ rw (e, del) (Wrote-Agrees s _ k none _ (deleted-Wrote s k h))
]

-- Evicting, in get and in the callback, drops the entry if it is not live.
lapsed : KvStore → Bytes → KvStore
lapsed c k = record (erase c k) { stat_expired = bump c.stat_expired }

lapsed-Wrote : (s c : KvStore) (k : Bytes) → Kept s c → Wrote s (lapsed c k) k none
unfolding lapsed
lapsed-Wrote s c k a =
    let w = erase-Wrote c k a.sound in
    Kept-Wrote s c _ k none a (Wrote-Kept c _ _ k none w (stat_expired-Kept (erase c k) _ w.sound))

pub evict-Agrees :
    (s c : KvStore) (k : Bytes) (now : ℤ) (r : Reply)
    → Kept s c
    → Agrees (evict c k now, r) (lapse (find s) k now, r)
unfolding evict lapsed
evict-Agrees s c k now r a = elim (Option-cases (find s k)) [
  | inl e ↦ rw (a.found k, e, evict, lapse) (Kept-Agrees s c r a)
  | inr (x, e) ↦ (elim (Bool-cases (is_live x now)) [
    | inl l ↦
        rw (a.found k, e, evict, lapse) (rw (is_expired-not_live x now, l) (Kept-Agrees s c r a))
    | inr l ↦
        rw (a.found k, e, evict, lapse)
          (rw (is_expired-not_live x now, l)
            (Wrote-Agrees s (lapsed c k) k none r (lapsed-Wrote s c k a)))
  ])
]

on_ttl_expired-eq-evict :
    (s : KvStore) (k : Bytes) (now : ℤ) → on_ttl_expired s k now ≡ evict s k now
unfolding on_ttl_expired evict
on_ttl_expired-eq-evict s k now = refl

get-Agrees :
    (s : KvStore) (k : Bytes) (now later : ℤ)
    → IsSound s
    → Agrees (run_op (gets k) now later s) (spec_op (gets k) now later (find s))
unfolding run_op spec_op get
get-Agrees s k now later h = elim (Option-cases (find s k)) [
  | inl e ↦ rw (e, get, spec_op) (Kept-Agrees s _ (bulk none) (stat_get-Kept s _ h))
  | inr (x, e) ↦ (elim (Bool-cases (is_live x now)) [
    | inl l ↦
        rw (e, get, spec_op) (rw l (Kept-Agrees s _ (bulk (some x.value)) (stat_get-Kept s _ h)))
    | inr l ↦
        rw (e, get, spec_op) (rw l (evict-Agrees s _ k later (bulk none) (stat_get-Kept s _ h)))
  ])
]

retargeted : KvStore → Bytes → Entry → ℤ → KvStore
retargeted s k x t =
    scheduled (logged (put s k (record x { expire_at_ms = t })) (λ w. log_expire w k t)) k t

retargeted-Wrote :
    (s : KvStore) (k : Bytes) (x : Entry) (t : ℤ)
    → IsSound s
    → Wrote s (retargeted s k x t) k (entry x.value t)
unfolding retargeted
retargeted-Wrote s k x t h =
    let a = put-Wrote s k (record x { expire_at_ms = t }) h in
    let b = logged-Kept _ (λ w. log_expire w k t) a.sound in
    Wrote-Kept s _ _ k _ (Wrote-Kept s _ _ k _ a b) (scheduled-Kept _ k t b.sound)

-- A live entry under a new deadline; one that is not live is dropped.
abbrev pub spec_retarget : Model → Bytes → ℤ → ℤ → Model × Reply
spec_retarget f k t now =
    with_live f k now (λ e. (assign f k (entry e.value t), flag true)) (flag false)

retarget-Agrees :
    (s : KvStore) (k : Bytes) (t now : ℤ)
    → IsSound s
    → Agrees (flagged (retarget s k t now)) (spec_retarget (find s) k t now)
unfolding retarget retargeted
retarget-Agrees s k t now h = elim (Option-cases (find s k)) [
  | inl e ↦ rw (e, retarget, with_live) (Kept-Agrees s s (flag false) (same s h))
  | inr (x, e) ↦ (elim (Bool-cases (is_live x now)) [
    | inl l ↦
        rw (e, retarget, with_live)
          (rw (is_expired-not_live x now, l)
            (Wrote-Agrees s (retargeted s k x t) k _ (flag true) (retargeted-Wrote s k x t h)))
    | inr l ↦
        rw (e, retarget, with_live)
          (rw (is_expired-not_live x now, l)
            (Wrote-Agrees s (erase s k) k none (flag false) (erase-Wrote s k h)))
  ])
]

expire-Agrees :
    (s : KvStore) (k : Bytes) (n now later : ℤ)
    → IsSound s
    → Agrees (run_op (expires k n) now later s) (spec_op (expires k n) now later (find s))
unfolding run_op spec_op expire
expire-Agrees s k n now later h = elim (Bool-cases (leb_ℤ n (pos 0))) [
  | inl e ↦ rw e (Kept-Agrees s s (flag false) (same s h))
  | inr e ↦ rw e (retarget-Agrees s k (deadline now n) later h)
]

persisted : KvStore → Bytes → Entry → KvStore
persisted s k x = logged (put s k (record x { expire_at_ms = negsuc 0 })) (λ w. log_set w k x.value)

persisted-Wrote :
    (s : KvStore) (k : Bytes) (x : Entry)
    → IsSound s
    → Wrote s (persisted s k x) k (entry x.value (negsuc 0))
unfolding persisted
persisted-Wrote s k x h =
    let a = put-Wrote s k (record x { expire_at_ms = negsuc 0 }) h in
    Wrote-Kept s _ _ k _ a (logged-Kept _ (λ w. log_set w k x.value) a.sound)

-- The code's test for the deadline -1.
abbrev pub is_persistent : Entry → Bool
is_persistent x = leb_ℤ x.expire_at_ms (negsuc 0) && leb_ℤ (negsuc 0) x.expire_at_ms

pub persistent-is_live : (x : Entry) (now : ℤ) → is_persistent x ≡ true → is_live x now ≡ true
unfolding is_live
persistent-is_live x now h = ground arith

persist-Agrees :
    (s : KvStore) (k : Bytes) (now later : ℤ)
    → IsSound s
    → Agrees (run_op (persists k) now later s) (spec_op (persists k) now later (find s))
unfolding run_op spec_op persist persisted
persist-Agrees s k now later h = elim (Option-cases (find s k)) [
  | inl e ↦ rw (e, persist, with_live) (Kept-Agrees s s (flag false) (same s h))
  | inr (x, e) ↦
      rw (e, persist, with_live)
        (elim (Bool-cases (is_persistent x)) [
          | inl p ↦ rw (p, persistent-is_live x now p) (Kept-Agrees s s (flag false) (same s h))
          | inr p ↦ (elim (Bool-cases (is_live x now)) [
            | inl l ↦
                rw (p, is_expired-not_live x now, l)
                  (Wrote-Agrees s (persisted s k x) k _ (flag true) (persisted-Wrote s k x h))
            | inr l ↦
                rw (p, is_expired-not_live x now, l)
                  (Wrote-Agrees s (erase s k) k none (flag false) (erase-Wrote s k h))
          ])
        ])
]

ttl-Agrees :
    (s : KvStore) (k : Bytes) (now later : ℤ)
    → IsSound s
    → Agrees (run_op (ttls k) now later s) (spec_op (ttls k) now later (find s))
unfolding run_op spec_op ttl
ttl-Agrees s k now later h = elim (Option-cases (find s k)) [
  | inl e ↦ rw (e, ttl, spec_op) (Kept-Agrees s s _ (same s h))
  | inr (x, e) ↦ rw (e, ttl, spec_op) (Kept-Agrees s s _ (same s h))
]

on_ttl_expired-Agrees :
    (s : KvStore) (k : Bytes) (now later : ℤ)
    → IsSound s
    → Agrees (run_op (lapses k) now later s) (spec_op (lapses k) now later (find s))
unfolding run_op spec_op
on_ttl_expired-Agrees s k now later h =
    rw (on_ttl_expired-eq-evict s k now) (evict-Agrees s s k now nothing (same s h))

-- From a store whose shards are all there, every operation of the store (set, set_ex,
-- set_absolute, get, del, expire, expire_at, persist, ttl and the background thread's
-- on_ttl_expired), run with the times that its calls of epoch_ms return, answers as the
-- specification does on the map of the entries, leaves exactly the map that the specification
-- leaves, and keeps the shards in place.
pub run_op-refines-spec_op :
    (op : Op) (now later : ℤ) (s : KvStore)
    → IsSound s
    → Agrees (run_op op now later s) (spec_op op now later (find s))
run_op-refines-spec_op (sets k v) now later s h = set-Agrees s k v now later h
run_op-refines-spec_op (sets_ex k v n) now later s h = set_ex-Agrees s k v n now later h
run_op-refines-spec_op (sets_absolute k v t) now later s h = set_absolute-Agrees s k v t now later h
run_op-refines-spec_op (gets k) now later s h = get-Agrees s k now later h
run_op-refines-spec_op (dels k) now later s h = del-Agrees s k now later h
run_op-refines-spec_op (expires k n) now later s h = expire-Agrees s k n now later h
run_op-refines-spec_op (expires_at k t) now later s h =
    unfold run_op spec_op expire_at in retarget-Agrees s k t now h
run_op-refines-spec_op (persists k) now later s h = persist-Agrees s k now later h
run_op-refines-spec_op (ttls k) now later s h = ttl-Agrees s k now later h
run_op-refines-spec_op (lapses k) now later s h = on_ttl_expired-Agrees s k now later h
