-- ===== src/Store/Expiry.antt =====
-- Time: how long a key with a time to live is there, and that a removal for its age never takes a key
-- that is live.
use redis_cpp.Base.{
  ℕ, zero, suc, ◌+◌, ◌-◌, ◌*◌, ◌/◌, ◌≤◌, ◌<◌, ◌≡◌, refl, ap, ◌∙◌, inl, inr, true, false, Option,
  none, some, Bytes, bytes_eq, bytes_eq_refl, bytes_eq_iff, ℤ, pos, negsuc, ◌+ℤ◌, ◌-ℤ◌, wrap64,
  wrap64_id, pos-+ℤ-pos, pos-*ℤ-pos, pos--ℤ-pos, pos--ℤ-pos_neg, ltb, ltb_ℤ, leb_ℤ, if◌then◌else◌,
  arith, Bool-cases,
}
use redis_cpp.Store.Shard.{Entry}
use redis_cpp.Store.State.{KvStore, find}
use redis_cpp.Store.Sharding.{IsSound}
use redis_cpp.Store.Ops.{is_live, evict, get, set_ex, remaining, ttl, deadline}
use redis_cpp.Store.Spec.{sets_ex, run_op, spec_op, entry, nothing, lapse}
use redis_cpp.Store.Refine.{Agrees, evict-Agrees, same, run_op-refines-spec_op}

-- Where the sum fits an int64_t, the deadline is exact.
pub deadline_exact :
    (a m : ℕ) → a + m * 1000 < 9223372036854775808 → deadline (pos a) (pos m) ≡ pos (a + m * 1000)
unfolding deadline
deadline_exact a m h =
    rw (pos-*ℤ-pos m 1000, wrap64_id (pos (m * 1000)) (omega arith), pos-+ℤ-pos a (m * 1000))
      (wrap64_id (pos (a + m * 1000)) h)

is_live_pos :
    (v : Bytes) (d t : ℕ) → is_live (record { value = v; expire_at_ms = pos d }) (pos t) ≡ ltb t d
unfolding is_live
is_live_pos v d t = ground arith

-- What get answers for a key with the entry `e`.
pub get_found :
    (s : KvStore) (k : Bytes) (e : Entry) (now later : ℤ)
    → find s k ≡ some e
    → (get s k now later).1 ≡ (if is_live e now then some e.value else none)
unfolding get
get_found s k e now later h = elim (Bool-cases (is_live e now)) [
  | inl l ↦ rw (h, get) (rw l refl)
  | inr l ↦ rw (h, get) (rw l refl)
]

pub get_missing :
    (s : KvStore) (k : Bytes) (now later : ℤ) → find s k ≡ none → (get s k now later).1 ≡ none
unfolding get
get_missing s k now later h = rw (h, get) refl

remaining_pos : (n : ℕ) → 0 < n → remaining (pos n) ≡ pos (n / 1000)
unfolding remaining
remaining_pos zero h = absurd (omega arith)
remaining_pos (suc n) h = refl

remaining_of :
    (d t : ℕ)
    → d < 9223372036854775808
    → t < 9223372036854775808
    → remaining (wrap64 (pos d -ℤ pos t)) ≡ (if ltb t d then pos ((d - t) / 1000) else negsuc 1)
remaining_of d t hd ht = elim (Bool-cases (ltb t d)) [
  | inl e ↦
      rw (e, pos--ℤ-pos d t (ground arith), wrap64_id (pos (d - t)) (omega arith))
        (remaining_pos (d - t) (ground arith))
  | inr e ↦ rw e (late (ground arith))
]
  where
    late : d ≤ t → remaining (wrap64 (pos d -ℤ pos t)) ≡ negsuc 1
    late h = elim (Bool-cases (ltb d t)) [
      | inl e ↦
          rw (pos--ℤ-pos_neg d t (ground arith), wrap64_id (negsuc (t - d - 1)) (omega arith))
            (unfold remaining in refl)
      | inr e ↦
          (let z : d - t ≡ 0 = ground arith in
            rw (pos--ℤ-pos d t (ground arith), z, wrap64_id (pos 0) (omega arith))
              (unfold remaining in refl))
    ]

set_ex-op :
    (s : KvStore) (k v : Bytes) (n now later : ℤ)
    → (set_ex s k v n now).0 ≡ (run_op (sets_ex k v n) now later s).0
unfolding run_op
set_ex-op s k v n now later = refl

found_set_ex :
    (s : KvStore) (k v : Bytes) (n : ℕ) (now : ℤ)
    → IsSound s
    → 0 < n
    → find (set_ex s k v (pos n) now).0 k ≡ entry v (deadline now (pos n))
found_set_ex s k v n now sound positive =
    rw (set_ex-op s k v (pos n) now now) (agrees.found k ∙ spec_found)
  where
    agrees :
        Agrees
          (run_op (sets_ex k v (pos n)) now now s)
          (spec_op (sets_ex k v (pos n)) now now (find s))
    agrees = run_op-refines-spec_op (sets_ex k v (pos n)) now now s sound

    not_refused : leb_ℤ (pos n) (pos 0) ≡ false
    not_refused = ground arith

    spec_found :
        (spec_op (sets_ex k v (pos n)) now now (find s)).0 k ≡ entry v (deadline now (pos n))
    spec_found = unfold spec_op in rw (not_refused, bytes_eq_refl k) refl

module _ (s : KvStore) (k v : Bytes) (a m : ℕ) (sound : IsSound s) (positive : 0 < m)
    (fits : a + m * 1000 < 9223372036854775808) where
  found_after : find (set_ex s k v (pos m) (pos a)).0 k ≡ entry v (pos (a + m * 1000))
  found_after = found_set_ex s k v m (pos a) sound positive ∙ ap (entry v) (deadline_exact a m fits)

  -- After set_ex with m > 0 seconds at the time a, on a store whose shards are all there, a get
  -- at the time t answers the value exactly while t < a + 1000 m, if that sum fits an int64_t.
  pub get-set_ex :
      (t : ℕ) (later : ℤ)
      → (get (set_ex s k v (pos m) (pos a)).0 k (pos t) later).1
        ≡ (if ltb t (a + m * 1000) then some v else none)
  get-set_ex t later =
      get_found _ k _ (pos t) later found_after ∙ rw (is_live_pos v (a + m * 1000) t) refl

  -- After set_ex with m > 0 seconds at the time a, on a store whose shards are all there, ttl at
  -- the time t answers the whole seconds that are left before a + 1000 m, and -2 from then on, if
  -- that sum and t fit an int64_t.
  pub ttl-set_ex :
      (t : ℕ)
      → t < 9223372036854775808
      → ttl (set_ex s k v (pos m) (pos a)).0 k (pos t)
        ≡ (if ltb t (a + m * 1000) then pos ((a + m * 1000 - t) / 1000) else negsuc 1)
  unfolding ttl
  ttl-set_ex t small =
      let no_sign : ltb_ℤ (pos (a + m * 1000)) (pos 0) ≡ false = ground arith in
      rw (found_after, ttl) (rw no_sign (remaining_of (a + m * 1000) t fits small))

-- The second half of get, which looks a key up again and erases it, leaves every entry that is
-- live at that time where it was, under that key or another, on a store whose shards are all
-- there.
pub find-evict_live :
    (s : KvStore) (k j : Bytes) (now : ℤ) (e : Entry)
    → IsSound s
    → find s j ≡ some e
    → is_live e now ≡ true
    → find (evict s k now) j ≡ some e
find-evict_live s k j now e sound f l =
    (evict-Agrees s s k now nothing (same s sound)).found j ∙ kept (find s k) refl
  where
    other : (x : Entry) → find s k ≡ some x → is_live x now ≡ false → bytes_eq k j ≡ false
    other x h q = elim (Bool-cases (bytes_eq k j)) [
      | inr b ↦ b
      | inl b ↦
          (let there : find s k ≡ some e = rw ((bytes_eq_iff k j).0 b) f in
            let one : x ≡ e = cc (h, there) in
            let l' : is_live x now ≡ true = rw one l in absurd (cc (l', q)))
    ]

    kept : (o : Option Entry) → find s k ≡ o → lapse (find s) k now j ≡ some e
    kept none h = rw (h, lapse) f
    kept (some x) h = elim (Bool-cases (is_live x now)) [
      | inl q ↦ rw (h, lapse) (rw q f)
      | inr q ↦ rw (h, lapse) (rw (q, other x h q) f)
    ]

deadline_overflow :
    (a : ℕ)
    → 1000 ≤ a
    → a < 9223372036854775808
    → deadline (pos a) (pos 9223372036854775807) ≡ pos (a - 1000)
unfolding deadline
deadline_overflow a lo small =
    rw (pos-*ℤ-pos 9223372036854775807 1000)
      (rw wrapped (rw sum (wrap64_id (pos (a - 1000)) (omega arith))))
  where
    wrapped : wrap64 (pos (9223372036854775807 * 1000)) ≡ negsuc 999
    wrapped = unfold wrap64 in refl

    sum : pos a +ℤ negsuc 999 ≡ pos (a - 1000)
    sum = unfold ◌+ℤ◌ in ground arith

-- On a store whose shards are all there, set_ex with 2^63 - 1 seconds at a time of at least 1000
-- that fits an int64_t answers true, and a get from that time on finds nothing.
pub get-set_ex_overflow :
    (s : KvStore) (k v : Bytes) (a t : ℕ) (later : ℤ)
    → IsSound s
    → 1000 ≤ a
    → a ≤ t
    → a < 9223372036854775808
    → ((set_ex s k v (pos 9223372036854775807) (pos a)).1 ≡ true)
      × ((get (set_ex s k v (pos 9223372036854775807) (pos a)).0 k (pos t) later).1 ≡ none)
get-set_ex_overflow s k v a t later sound lo le small =
    (unfold set_ex in refl, get_found _ k _ (pos t) later found ∙ rw dead refl)
  where
    found : find (set_ex s k v (pos 9223372036854775807) (pos a)).0 k ≡ entry v (pos (a - 1000))
    found =
        found_set_ex s k v 9223372036854775807 (pos a) sound (omega arith)
        ∙ ap (entry v) (deadline_overflow a lo small)

    dead : is_live (record { value = v; expire_at_ms = pos (a - 1000) }) (pos t) ≡ false
    dead = rw (is_live_pos v (a - 1000) t) (ground arith)
