-- ===== src/Store/Swept.antt =====
-- The background thread's loop leaves no entry behind whose deadline had come when it began.
use redis_cpp.Base.{
  ℕ, zero, suc, ◌+◌, ◌≤◌, ◌≡◌, refl, sym, ap, ◌∙◌, subst, inl, inr, Bool, true, false, Option, none,
  some, [], ◌∷◌, length, Bytes, bytes_eq, ℤ, pos, ltb_ℤ, leb_ℤ, if◌then◌else◌, arith, Bool-cases,
  some-injective,
}
use redis_cpp.Ttl.Heap.{Deadline, MinHeap, pop_due}
use redis_cpp.Ttl.Sorted.{Sorted, Waits, leb_trans, pop_due-none}
use redis_cpp.Store.Shard.{Entry}
use redis_cpp.Store.State.{KvStore, bump, find, erase}
use redis_cpp.Store.Sharding.{IsSound, SameMap, find-SameMap, SameMap-IsSound, find-erase}
use redis_cpp.Store.Ops.{is_expired}
use redis_cpp.Store.Scheduled.{Covered, other_key, true_ne_false}
use redis_cpp.Store.Sweep.{on_ttl_expired-IsSound}
use redis_cpp.Store.Background.{on_ttl_expired, expire_step, expire_loop}

-- What of the store survives the callback: an entry that was there, and not one of the key with a
-- deadline that has come.
on_ttl_expired-found :
    (s : KvStore) (k j : Bytes) (later : ℤ) (e : Entry)
    → IsSound s
    → find (on_ttl_expired s k later) j ≡ some e
    → (find s j ≡ some e) × ((k ≡ j → is_expired e later ≡ false))
unfolding on_ttl_expired
on_ttl_expired-found s k j later e sound q = by_entry (find s k) refl q
  where
    gone : KvStore
    gone = record (erase s k) { stat_expired = bump s.stat_expired }

    tested : Entry → Bool → KvStore
    tested x b = if b then gone else s

    chosen : Option Entry → KvStore
    chosen none = s
    chosen (some x) = tested x (is_expired x later)

    erased : find gone j ≡ (if bytes_eq k j then none else find s j)
    erased =
        find-SameMap (erase s k) gone j (record { shards = refl; n_shards = refl })
        ∙ find-erase s k j sound

    by_key :
        (b : Bool)
        → bytes_eq k j ≡ b
        → (if b then none else find s j) ≡ some e
        → (find s j ≡ some e) × ((k ≡ j → is_expired e later ≡ false))
    by_key true b r = absurd cc
    by_key false b r = (r, λ same. absurd (other_key k j b (sym same)))

    by_test :
        (x : Entry)
        → find s k ≡ some x
        → (b : Bool) → is_expired x later ≡ b
        → find (tested x b) j ≡ some e
        → (find s j ≡ some e) × ((k ≡ j → is_expired e later ≡ false))
    by_test x p true b r = by_key (bytes_eq k j) refl (sym erased ∙ r)
    by_test x p false b r = (
      r,
      λ same.
          ap (λ v. is_expired v later) (some-injective (sym r ∙ ap (find s) (sym same) ∙ p)) ∙ b,
    )

    by_entry :
        (o : Option Entry)
        → find s k ≡ o
        → find (chosen o) j ≡ some e
        → (find s j ≡ some e) × ((k ≡ j → is_expired e later ≡ false))
    by_entry none p r = (r, λ same. absurd (nothing (sym p ∙ ap (find s) same ∙ r)))
      where
        nothing : none ≡ some e → ⊥
        nothing y = cc
    by_entry (some x) p r = by_test x p (is_expired x later) refl r

-- The heap is the same.
on_ttl_expired-ttl_mgr :
    (s : KvStore) (k : Bytes) (later : ℤ) → (on_ttl_expired s k later).ttl_mgr ≡ s.ttl_mgr
unfolding on_ttl_expired erase
on_ttl_expired-ttl_mgr s k later = ground arith

-- An entry with a deadline that has come is expired.
due-is_expired :
    (e : Entry) (later : ℤ)
    → ltb_ℤ (pos 0) e.expire_at_ms ≡ true
    → leb_ℤ e.expire_at_ms later ≡ true
    → is_expired e later ≡ true
unfolding is_expired
due-is_expired e later p q = ground arith

-- One round on a heap whose top is due.
popped-Covered :
    (s : KvStore) (d : Deadline) (rest : MinHeap) (now later : ℤ)
    → IsSound s
    → (h : Covered s) → h.heap ≡ d ∷ rest
    → leb_ℤ d.expire_at_ms now ≡ true
    → leb_ℤ now later ≡ true
    → (c : Covered (on_ttl_expired (record s { ttl_mgr = some rest }) d.key later)) × (c.heap
        ≡ rest)
popped-Covered s d rest now later sound h e due after = (
  record {
    heap = rest;
    is_heap = on_ttl_expired-ttl_mgr popped d.key later;
    sorted = (subst Sorted e h.sorted).1;
    waits = λ k x p q z.
        let (f, dead) =
          on_ttl_expired-found popped d.key k later x (SameMap-IsSound s popped same sound) q in
        still k x z dead (
          subst (Waits k x.expire_at_ms) e
            (h.waits k x (λ y. y) (sym (find-SameMap s popped k same) ∙ f) z));
  },
  refl,
)
  where
    popped : KvStore
    popped = record s { ttl_mgr = some rest }

    same : SameMap s popped
    same = record { shards = refl; n_shards = refl }

    still :
        (k : Bytes) (x : Entry)
        → ltb_ℤ (pos 0) x.expire_at_ms ≡ true
        → (d.key ≡ k → is_expired x later ≡ false)
        → Waits k x.expire_at_ms (d ∷ rest)
        → Waits k x.expire_at_ms rest
    still k x z dead (inr w) = w
    still k x z dead (inl (a, b)) = absurd (
        true_ne_false (
          sym (
            due-is_expired x later z
              (subst (λ u. leb_ℤ u later ≡ true) b (leb_trans d.expire_at_ms now later due after)))
          ∙ dead a))

popped-IsSound :
    (s : KvStore) (rest : MinHeap) (k : Bytes) (later : ℤ)
    → IsSound s
    → IsSound (on_ttl_expired (record s { ttl_mgr = some rest }) k later)
popped-IsSound s rest k later sound =
    on_ttl_expired-IsSound (record s { ttl_mgr = some rest }) k later
      (SameMap-IsSound s (record s { ttl_mgr = some rest })
        (record { shards = refl; n_shards = refl }) sound)

step_due :
    (s : KvStore) (d : Deadline) (rest : MinHeap) (now later : ℤ)
    → s.ttl_mgr ≡ some (d ∷ rest)
    → leb_ℤ d.expire_at_ms now ≡ true
    → expire_step s now later ≡ some (on_ttl_expired (record s { ttl_mgr = some rest }) d.key later)
unfolding expire_step pop_due
step_due s d rest now later p b = rw (p, expire_step) (rw (b, pop_due) refl)

step_none :
    (s : KvStore) (m : MinHeap) (now later : ℤ)
    → s.ttl_mgr ≡ some m
    → pop_due now m ≡ none
    → expire_step s now later ≡ none
unfolding expire_step
step_none s m now later p b = rw (p, expire_step) (rw b refl)

module _ (start : ℤ) (clock clock' : ℕ → ℤ) (from_start : (n : ℕ) → leb_ℤ start (clock n) ≡ true)
    (onwards : (n : ℕ) → leb_ℤ (clock n) (clock' n) ≡ true) where
  NoneDue : KvStore → Type 0
  NoneDue s =
      (k : Bytes) (e : Entry)
      → find s k ≡ some e
      → ltb_ℤ (pos 0) e.expire_at_ms ≡ true
      → leb_ℤ e.expire_at_ms start ≡ false

  swept :
      (i : ℕ) (s : KvStore) (m : MinHeap) (h : Covered s)
      → h.heap ≡ m
      → pop_due (clock i) m ≡ none
      → NoneDue s
  unfolding NoneDue
  swept i s m h e p k x q z = not_yet x.expire_at_ms (
      pop_due-none (clock i) m k x.expire_at_ms (subst Sorted e h.sorted) p
        (subst (Waits k x.expire_at_ms) e (h.waits k x (λ y. y) q z)))
    where
      not_yet : (t : ℤ) → leb_ℤ t (clock i) ≡ false → leb_ℤ t start ≡ false
      not_yet t b = elim (Bool-cases (leb_ℤ t start)) [
        | inr c ↦ c
        | inl c ↦ absurd (true_ne_false (sym (leb_trans t start (clock i) c (from_start i)) ∙ b))
      ]

  expire_loop-NoneDue :
      (fuel i : ℕ) (s : KvStore) (m : MinHeap)
      → IsSound s
      → (h : Covered s) → h.heap ≡ m
      → length m ≤ fuel
      → NoneDue (expire_loop fuel clock clock' i s)
  unfolding expire_loop pop_due
  expire_loop-NoneDue zero i s [] sound h e le = swept i s [] h e refl
  expire_loop-NoneDue zero i s (d ∷ m) sound h e le = absurd (omega arith)
  expire_loop-NoneDue (suc fuel) i s [] sound h e le =
      rw (step_none s [] (clock i) (clock' i) (h.is_heap ∙ ap some e) refl, expire_loop)
        (swept i s [] h e refl)
  expire_loop-NoneDue (suc fuel) i s (d ∷ m) sound h e le =
      elim (Bool-cases (leb_ℤ d.expire_at_ms (clock i))) [
        | inl b ↦
            (let (c, same) = popped-Covered s d m (clock i) (clock' i) sound h e b (onwards i) in
              rw (step_due s d m (clock i) (clock' i) (h.is_heap ∙ ap some e) b, expire_loop)
                (expire_loop-NoneDue fuel (i + 1)
                  (on_ttl_expired (record s { ttl_mgr = some m }) d.key (clock' i)) m
                  (popped-IsSound s m d.key (clock' i) sound) c same (omega arith)))
        | inr b ↦
            (let idle : pop_due (clock i) (d ∷ m) ≡ none = rw (b, pop_due) refl in
              rw
                (step_none s (d ∷ m) (clock i) (clock' i) (h.is_heap ∙ ap some e) idle, expire_loop)
                (swept i s (d ∷ m) h e idle))
      ]

  pub expire_loop_sweeps :
      (fuel : ℕ) (s : KvStore)
      → IsSound s
      → (h : Covered s) → length h.heap ≤ fuel
      → (k : Bytes) (e : Entry) → find (expire_loop fuel clock clock' 0 s) k ≡ some e
      → ltb_ℤ (pos 0) e.expire_at_ms ≡ true
      → leb_ℤ e.expire_at_ms start ≡ false
  unfolding NoneDue
  expire_loop_sweeps fuel s sound h le = expire_loop-NoneDue fuel 0 s h.heap sound h refl le
