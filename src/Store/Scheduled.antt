-- ===== src/Store/Scheduled.antt =====
-- Every entry of the store that has a deadline waits in the heap of the TtlManager with that deadline:
-- the operations of src/store/KvStore.cpp that give a deadline also schedule it.
use redis_cpp.Base.{
  ◌≡◌, ◌⊎◌, refl, sym, ap, ◌∙◌, subst, inl, inr, true, false, none, some, Bytes, bytes_eq,
  bytes_eq_iff, bytes_eq_refl, ℤ, pos, ltb_ℤ, if◌then◌else◌, arith, Bool-cases, some-injective,
}
use redis_cpp.Aof.Writer.{AofWriter}
use redis_cpp.Ttl.Heap.{MinHeap, schedule, push}
use redis_cpp.Ttl.Sorted.{Sorted, Waits, push-Sorted, push-Waits, push-Waits_kept}
use redis_cpp.Store.Shard.{Entry}
use redis_cpp.Store.State.{KvStore, find, put, erase}
use redis_cpp.Store.Sharding.{IsSound, find-put, find-erase, put-IsSound}
use redis_cpp.Store.Effects.{Kept, logged-Kept, scheduled-Kept}
use redis_cpp.Store.Ops.{logged, scheduled, set_internal}

pub true_ne_false : true ≡ false → ⊥
true_ne_false e = cc

put-ttl_mgr : (s : KvStore) (k : Bytes) (e : Entry) → (put s k e).ttl_mgr ≡ s.ttl_mgr
unfolding put
put-ttl_mgr s k e = refl

same_key : (k j : Bytes) → bytes_eq k j ≡ true → k ≡ j
same_key k j b = (bytes_eq_iff k j).0 b

pub other_key : (k j : Bytes) → bytes_eq k j ≡ false → j ≡ k → ⊥
other_key k j b e = true_ne_false (sym ((bytes_eq_iff k j).1 (sym e)) ∙ b)

pub logged-ttl_mgr : (s : KvStore) (f : AofWriter → AofWriter) → (logged s f).ttl_mgr ≡ s.ttl_mgr
unfolding logged
logged-ttl_mgr s f = ground arith

scheduled-ttl_mgr :
    (s : KvStore) (k : Bytes) (t : ℤ) (h : MinHeap)
    → s.ttl_mgr ≡ some h
    → (scheduled s k t).ttl_mgr ≡ some (schedule h k t)
unfolding scheduled
scheduled-ttl_mgr s k t h e = ground arith

-- A store with a TtlManager, in whose heap every deadline of the store waits, but perhaps that of the
-- keys that `P` holds of.
pub record CoveredBut (P : Bytes → Type 0) (s : KvStore) : Type 0 where
  pub heap : MinHeap
  pub is_heap : s.ttl_mgr ≡ some heap
  pub sorted : Sorted heap
  pub waits :
      (k : Bytes) (e : Entry)
      → (P k → ⊥)
      → find s k ≡ some e
      → ltb_ℤ (pos 0) e.expire_at_ms ≡ true
      → Waits k e.expire_at_ms heap

abbrev pub NoKey : Bytes → Type 0
NoKey k = ⊥

abbrev pub Covered : KvStore → Type 0
Covered s = CoveredBut NoKey s

module _ (P : Bytes → Type 0) (s : KvStore) (h : CoveredBut P s) where
  -- A store of which every entry is one of `s`, with the same heap.
  CoveredBut-fewer :
      (t : KvStore)
      → t.ttl_mgr ≡ s.ttl_mgr
      → ((k : Bytes) (e : Entry) → find t k ≡ some e → find s k ≡ some e)
      → CoveredBut P t
  CoveredBut-fewer t m f = record {
    heap = h.heap;
    is_heap = m ∙ h.is_heap;
    sorted = h.sorted;
    waits = λ k e p q. h.waits k e p (f k e q);
  }

  pub logged-CoveredBut : (f : AofWriter → AofWriter) → IsSound s → CoveredBut P (logged s f)
  logged-CoveredBut f sound =
      CoveredBut-fewer (logged s f) (logged-ttl_mgr s f)
        (λ k e q. sym ((logged-Kept s f sound).found k) ∙ q)

  -- The missing key is scheduled.
  scheduled-Covered :
      (k : Bytes) (e : Entry)
      → ((j : Bytes) → P j → j ≡ k)
      → find s k ≡ some e
      → IsSound s
      → Covered (scheduled s k e.expire_at_ms)
  unfolding schedule
  scheduled-Covered k e only q sound = record {
    heap = schedule h.heap k e.expire_at_ms;
    is_heap = scheduled-ttl_mgr s k e.expire_at_ms h.heap h.is_heap;
    sorted = push-Sorted _ h.heap h.sorted;
    waits = λ j x p r z. elim (Bool-cases (bytes_eq k j)) [
      | inl b ↦
          own j x (same_key k j b) (sym ((scheduled-Kept s k e.expire_at_ms sound).found j) ∙ r)
      | inr b ↦
          push-Waits_kept (record { expire_at_ms = e.expire_at_ms; key = k }) j x.expire_at_ms
            h.heap
            (h.waits j x (λ y. other_key k j b (only j y))
              (sym ((scheduled-Kept s k e.expire_at_ms sound).found j) ∙ r) z)
    ];
  }
    where
      own :
          (j : Bytes) (x : Entry)
          → k ≡ j
          → find s j ≡ some x
          → Waits j x.expire_at_ms (push (record { expire_at_ms = e.expire_at_ms; key = k }) h.heap)
      own j x b r =
          let same : e ≡ x = some-injective (sym q ∙ subst (λ y. find s y ≡ some x) (sym b) r) in
          subst
            (λ y.
              Waits y x.expire_at_ms
                (push (record { expire_at_ms = e.expire_at_ms; key = k }) h.heap))
            b
            (subst
              (λ y. Waits k y (push (record { expire_at_ms = e.expire_at_ms; key = k }) h.heap))
              (ap (λ y. y.expire_at_ms) same)
              (push-Waits (record { expire_at_ms = e.expire_at_ms; key = k }) h.heap))

module _ (s : KvStore) (sound : IsSound s) (h : Covered s) (k : Bytes) where
  pub erase-Covered : Covered (erase s k)
  erase-Covered =
      CoveredBut-fewer NoKey s h (erase s k) (unfold erase in refl)
        (λ j e q. by_key j e (Bool-cases (bytes_eq k j)) (sym (find-erase s k j sound) ∙ q))
    where
      by_key :
          (j : Bytes) (e : Entry)
          → (bytes_eq k j ≡ true) ⊎ (bytes_eq k j ≡ false)
          → (if bytes_eq k j then none else find s j) ≡ some e
          → find s j ≡ some e
      by_key j e (inl b) q = absurd (ground arith)
      by_key j e (inr b) q = rw b at q

  put-CoveredBut : (e : Entry) → CoveredBut (λ j. j ≡ k) (put s k e)
  put-CoveredBut e = record {
    heap = h.heap;
    is_heap = put-ttl_mgr s k e ∙ h.is_heap;
    sorted = h.sorted;
    waits = λ j x p q z. elim (Bool-cases (bytes_eq k j)) [
      | inl b ↦ absurd (p (sym (same_key k j b)))
      | inr b ↦ h.waits j x (λ y. y) (rw b at (sym (find-put s k j sound e) ∙ q)) z
    ];
  }

  -- An entry without a deadline.
  pub put-Covered : (e : Entry) → ltb_ℤ (pos 0) e.expire_at_ms ≡ false → Covered (put s k e)
  put-Covered e z = record {
    heap = h.heap;
    is_heap = put-ttl_mgr s k e ∙ h.is_heap;
    sorted = h.sorted;
    waits = λ j x p q z'. elim (Bool-cases (bytes_eq k j)) [
      | inl b ↦
          absurd (no_deadline x (some-injective (rw b at (sym (find-put s k j sound e) ∙ q))) z')
      | inr b ↦ h.waits j x (λ y. y) (rw b at (sym (find-put s k j sound e) ∙ q)) z'
    ];
  }
    where
      no_deadline : (x : Entry) → e ≡ x → ltb_ℤ (pos 0) x.expire_at_ms ≡ true → ⊥
      no_deadline x same y =
          absurd (true_ne_false (sym y ∙ ap (λ v. ltb_ℤ (pos 0) v.expire_at_ms) (sym same) ∙ z))

  -- An entry with a deadline that is scheduled behind the assignment and the log's record.
  pub put-scheduled-Covered :
      (e : Entry) (f : AofWriter → AofWriter)
      → Covered (scheduled (logged (put s k e) f) k e.expire_at_ms)
  put-scheduled-Covered e f =
      let stored = put-IsSound s k e sound in
      let kept = logged-Kept (put s k e) f stored in
      scheduled-Covered (λ j. j ≡ k) (logged (put s k e) f)
        (logged-CoveredBut (λ j. j ≡ k) (put s k e) (put-CoveredBut e) f stored) k e (λ j p. p)
        (kept.found k ∙ find-put s k k sound e ∙ rw (bytes_eq_refl k) refl) kept.sound

  pub set_internal-Covered : (v : Bytes) (t : ℤ) → Covered (set_internal s k v t)
  unfolding set_internal
  set_internal-Covered v t =
      let e : Entry = record { value = v; expire_at_ms = t } in
      let stored = put-IsSound s k e sound in
      elim (Bool-cases (ltb_ℤ (pos 0) t)) [
        | inl q ↦ rw q (
            scheduled-Covered (λ j. j ≡ k) (put s k e) (put-CoveredBut e) k e (λ j p. p)
              (find-put s k k sound e ∙ rw (bytes_eq_refl k) refl) stored)
        | inr q ↦ rw q (put-Covered e q)
      ]

-- Behind a step that keeps the map and the heap.
pub Kept-Covered : (s c : KvStore) → Covered s → Kept s c → c.ttl_mgr ≡ s.ttl_mgr → Covered c
Kept-Covered s c h a m = CoveredBut-fewer NoKey s h c m (λ k e q. sym (a.found k) ∙ q)
