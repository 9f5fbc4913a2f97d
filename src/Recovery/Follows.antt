-- ===== src/Recovery/Follows.antt =====
-- An operation of src/store/KvStore.cpp, and what the lambdas of src/main.cpp make of the record that
-- it logs, side by side on the map of the specification.
use redis_cpp.Base.{
  ℕ, ◌≡◌, refl, sym, ◌∙◌, inl, inr, true, false, Option, none, some, Bytes, bytes_eq, bytes_eq_iff,
  bytes_eq_refl, ℤ, pos, leb_ℤ, arith, Bool-cases, Option-cases,
}
use redis_cpp.Aof.Replay.{set_ex_call, expire_call}
use redis_cpp.Store.Shard.{Entry}
use redis_cpp.Store.Ops.{is_live, deadline}
use redis_cpp.Store.Spec.{
  Op, sets, sets_ex, sets_absolute, gets, dels, expires, expires_at, persists, ttls, lapses,
  spec_op, Model, assign, entry, lapse, with_live,
}
use redis_cpp.Store.Refine.{is_persistent, spec_retarget}
use redis_cpp.Commands.Command.{Times}
use redis_cpp.Recovery.Restored.{
  restored, restored_all, AllAhead, Follows, is_live-earlier, is_live-later,
}
use redis_cpp.Recovery.Logged.{calls_of_op, retarget_calls, persist_calls}

abbrev key_of : Op → Bytes
key_of (sets k v) = k
key_of (sets_ex k v n) = k
key_of (sets_absolute k v t) = k
key_of (gets k) = k
key_of (dels k) = k
key_of (expires k n) = k
key_of (expires_at k t) = k
key_of (persists k) = k
key_of (ttls k) = k
key_of (lapses k) = k

-- An operation on another key changes nothing under `j`, and neither does what it logs.
spec_op-other :
    (op : Op) (now later : ℤ) (f : Model) (j : Bytes)
    → bytes_eq (key_of op) j ≡ false
    → (spec_op op now later f).0 j ≡ f j
unfolding spec_op
spec_op-other (sets k v) now later f j q = ground arith
spec_op-other (sets_ex k v n) now later f j q = ground arith
spec_op-other (sets_absolute k v t) now later f j q = ground arith
spec_op-other (gets k) now later f j q = ground arith
spec_op-other (dels k) now later f j q = ground arith
spec_op-other (expires k n) now later f j q = ground arith
spec_op-other (expires_at k t) now later f j q = ground arith
spec_op-other (persists k) now later f j q = ground arith
spec_op-other (ttls k) now later f j q = ground arith
spec_op-other (lapses k) now later f j q = ground arith

module _ (clock : ℕ → Times) (i : ℕ) (j : Bytes) (g : Model) where
  retarget_calls-other :
      (o : Option Entry) (k : Bytes) (d now : ℤ)
      → bytes_eq k j ≡ false
      → restored_all (retarget_calls o k d now) clock i g j ≡ g j
  retarget_calls-other none k d now q = refl
  retarget_calls-other (some e) k d now q = ground arith

  calls_of_op-other :
      (op : Op) (now later : ℤ) (f : Model)
      → bytes_eq (key_of op) j ≡ false
      → restored_all (calls_of_op op now later f) clock i g j ≡ g j
  unfolding calls_of_op
  calls_of_op-other (sets k v) now later f q = ground arith
  calls_of_op-other (sets_ex k v n) now later f q = ground arith
  calls_of_op-other (sets_absolute k v t) now later f q = ground arith
  calls_of_op-other (gets k) now later f q = refl
  calls_of_op-other (dels k) now later f q = ground arith
  calls_of_op-other (expires k n) now later f q =
      ground (arith, retarget_calls-other (f k) k (deadline now n) later q)
  calls_of_op-other (expires_at k t) now later f q = retarget_calls-other (f k) k t now q
  calls_of_op-other (persists k) now later f q = ground arith
  calls_of_op-other (ttls k) now later f q = refl
  calls_of_op-other (lapses k) now later f q = refl

-- An operation on `j` itself.
module _ (restart : ℤ) (j : Bytes) (now later : ℤ) (clock : ℕ → Times) (i : ℕ) (f g : Model)
    (le : leb_ℤ now restart ≡ true) (le' : leb_ℤ later restart ≡ true)
    (before : leb_ℤ (clock i).now restart ≡ true) (before' : leb_ℤ (clock i).later restart ≡ true)
    (h : Follows restart j f g) where
  abbrev pub After : Op → Type 0
  After op =
      AllAhead restart j (calls_of_op op now later f)
      → Follows restart j (spec_op op now later f).0
          (restored_all (calls_of_op op now later f) clock i g)

  sets-After : (v : Bytes) → After (sets j v)
  unfolding spec_op calls_of_op is_live
  sets-After v a = record {
    same = ground (arith, bytes_eq_refl j);
    live = λ e q. ground (arith, bytes_eq_refl j);
  }

  set_deadline :
      (v : Bytes) (d : ℤ)
      → leb_ℤ d restart ≡ false
      → Follows restart j (assign f j (entry v d)) (restored (clock i) (set_ex_call j v d) g)
  unfolding is_live
  set_deadline v d a = record {
    same = ground (arith, bytes_eq_refl j);
    live = λ e q. ground (arith, bytes_eq_refl j);
  }

  dels-After : After (dels j)
  unfolding spec_op calls_of_op
  dels-After a = record {
    same = ground (arith, bytes_eq_refl j);
    live = λ e q. ground (arith, bytes_eq_refl j);
  }

  sets_ex-After : (v : Bytes) (n : ℤ) → After (sets_ex j v n)
  unfolding spec_op calls_of_op
  sets_ex-After v n = elim (Bool-cases (leb_ℤ n (pos 0))) [
    | inl q ↦ rw q (λ a. h)
    | inr q ↦ rw q (λ a. set_deadline v (deadline now n) (a.0 (bytes_eq_refl j)))
  ]

  lapse-Follows : (t : ℤ) → leb_ℤ t restart ≡ true → Follows restart j (lapse f j t) g
  lapse-Follows t q = elim (Option-cases (f j)) [
    | inl e ↦ rw (e, lapse) h
    | inr (x, e) ↦ rw (e, lapse) (rw (is_live-earlier x t restart (h.live x e) q) h)
  ]

  gets-After : After (gets j)
  unfolding spec_op calls_of_op
  gets-After a = elim (Option-cases (f j)) [
    | inl e ↦ rw (e, spec_op) h
    | inr (x, e) ↦ rw (e, spec_op) (rw (is_live-earlier x now restart (h.live x e) le) h)
  ]

  moved :
      (x : Entry) (d : ℤ)
      → f j ≡ some x
      → leb_ℤ d restart ≡ false
      → Follows restart j (assign f j (entry x.value d)) (restored (clock i) (expire_call j d) g)
  moved x d e a =
      let ahead : leb_ℤ d (clock i).now ≡ false = ground arith in
      rw ahead (
        rw (h.same ∙ e, with_live)
          (rw (is_live-earlier x (clock i).later restart (h.live x e) before') (record {
            same = ground (arith, bytes_eq_refl j);
            live = λ y q. ground (arith, bytes_eq_refl j, is_live-later x.value d restart a);
          })))

  retarget-Follows :
      (d t : ℤ)
      → leb_ℤ t restart ≡ true
      → AllAhead restart j (retarget_calls (f j) j d t)
      → Follows restart j
          (spec_retarget f j d t).0
          (restored_all (retarget_calls (f j) j d t) clock i g)
  retarget-Follows d t q = elim (Option-cases (f j)) [
    | inl e ↦ rw (e, with_live, retarget_calls) (λ a. h)
    | inr (x, e) ↦
        rw (e, with_live, retarget_calls)
          (rw (is_live-earlier x t restart (h.live x e) q)
            (λ a. moved x d e (a.0 (bytes_eq_refl j))))
  ]

  persists-After : After (persists j)
  unfolding spec_op calls_of_op
  persists-After = elim (Option-cases (f j)) [
    | inl e ↦ rw (e, spec_op, persist_calls, with_live) (λ a. h)
    | inr (x, e) ↦
        rw (e, spec_op, persist_calls, with_live)
          (rw (is_live-earlier x now restart (h.live x e) le) (elim (Bool-cases (is_persistent x)) [
            | inl p ↦ rw p (λ a. h)
            | inr p ↦ rw p (λ a. sets-After x.value a)
          ]))
  ]

  expires-After : (n : ℤ) → After (expires j n)
  unfolding spec_op calls_of_op
  expires-After n = elim (Bool-cases (leb_ℤ n (pos 0))) [
    | inl q ↦ rw q (λ a. h)
    | inr q ↦ rw q (retarget-Follows (deadline now n) later le')
  ]

  same_key : (op : Op) → key_of op ≡ j → After op
  unfolding spec_op calls_of_op
  same_key (sets k v) e = rw e (sets-After v)
  same_key (sets_ex k v n) e = rw e (sets_ex-After v n)
  same_key (sets_absolute k v t) e = rw e (λ a. set_deadline v t (a.0 (bytes_eq_refl j)))
  same_key (gets k) e = rw e gets-After
  same_key (dels k) e = rw e dels-After
  same_key (expires k n) e = rw e (expires-After n)
  same_key (expires_at k t) e = rw e (retarget-Follows t now le)
  same_key (persists k) e = rw e persists-After
  same_key (ttls k) e = λ a. h
  same_key (lapses k) e = rw e (λ a. lapse-Follows now le)

  -- Any operation, on `j` or another key.
  pub step-Follows : (op : Op) → After op
  step-Follows op a = elim (Bool-cases (bytes_eq (key_of op) j)) [
    | inl q ↦ same_key op ((bytes_eq_iff (key_of op) j).0 q) a
    | inr q ↦
        (let same_f = spec_op-other op now later f j q in
          record {
            same = calls_of_op-other clock i j g op now later f q ∙ h.same ∙ sym same_f;
            live = λ e r. h.live e (sym same_f ∙ r);
          })
  ]
