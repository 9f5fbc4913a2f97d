-- ===== src/Ttl/Sorted.antt =====
-- The heap of src/store/TtlManager.hpp is in order, and loses nothing that is pushed.
use redis_cpp.Base.{
  ◌≡◌, refl, ◌⊎◌, inl, inr, true, false, Option, none, some, [], ◌∷◌, Bytes, ℤ, leb_ℤ, arith,
  Bool-cases, subst,
}
use redis_cpp.Ttl.Heap.{Deadline, MinHeap, push, pop_due}

-- Every deadline of the heap is `t` or later.
abbrev pub AllFrom : ℤ → MinHeap → Type 0
AllFrom t [] = Unit
AllFrom t (d ∷ h) = (leb_ℤ t d.expire_at_ms ≡ true) × AllFrom t h

abbrev pub Sorted : MinHeap → Type 0
Sorted [] = Unit
Sorted (d ∷ h) = AllFrom d.expire_at_ms h × Sorted h

-- The key waits in the heap with that deadline.
abbrev pub Waits : Bytes → ℤ → MinHeap → Type 0
Waits k t [] = ⊥
Waits k t (d ∷ h) = ((d.key ≡ k) × (d.expire_at_ms ≡ t)) ⊎ Waits k t h

pub leb_trans : (a b c : ℤ) → leb_ℤ a b ≡ true → leb_ℤ b c ≡ true → leb_ℤ a c ≡ true
leb_trans a b c p q = ground arith

leb_flip : (a b : ℤ) → leb_ℤ a b ≡ false → leb_ℤ b a ≡ true
leb_flip a b p = ground arith

pub AllFrom-weaken : (a b : ℤ) (h : MinHeap) → leb_ℤ a b ≡ true → AllFrom b h → AllFrom a h
AllFrom-weaken a b [] p q = tt
AllFrom-weaken a b (d ∷ h) p (x, q) = (leb_trans a b d.expire_at_ms p x, AllFrom-weaken a b h p q)

push-AllFrom :
    (t : ℤ) (d : Deadline) (h : MinHeap)
    → leb_ℤ t d.expire_at_ms ≡ true
    → AllFrom t h
    → AllFrom t (push d h)
unfolding push
push-AllFrom t d [] p q = (p, tt)
push-AllFrom t d (e ∷ h) p (x, q) = elim (Bool-cases (leb_ℤ e.expire_at_ms d.expire_at_ms)) [
  | inl b ↦ rw b (x, push-AllFrom t d h p q)
  | inr b ↦ rw b (p, (x, q))
]

pub push-Sorted : (d : Deadline) (h : MinHeap) → Sorted h → Sorted (push d h)
unfolding push
push-Sorted d [] s = (tt, tt)
push-Sorted d (e ∷ h) (a, s) = elim (Bool-cases (leb_ℤ e.expire_at_ms d.expire_at_ms)) [
  | inl b ↦ rw b (push-AllFrom e.expire_at_ms d h b a, push-Sorted d h s)
  | inr b ↦ rw b (
    (
      leb_flip e.expire_at_ms d.expire_at_ms b,
      AllFrom-weaken d.expire_at_ms e.expire_at_ms h (leb_flip e.expire_at_ms d.expire_at_ms b) a,
    ),
    (a, s),
  )
]

pub push-Waits : (d : Deadline) (h : MinHeap) → Waits d.key d.expire_at_ms (push d h)
unfolding push
push-Waits d [] = inl (refl, refl)
push-Waits d (e ∷ h) = elim (Bool-cases (leb_ℤ e.expire_at_ms d.expire_at_ms)) [
  | inl b ↦ rw b (inr (push-Waits d h))
  | inr b ↦ rw b (inl (refl, refl))
]

pub push-Waits_kept :
    (d : Deadline) (k : Bytes) (t : ℤ) (h : MinHeap) → Waits k t h → Waits k t (push d h)
unfolding push
push-Waits_kept d k t [] w = elim w [ ]
push-Waits_kept d k t (e ∷ h) w = elim (Bool-cases (leb_ℤ e.expire_at_ms d.expire_at_ms)) [
  | inl b ↦ rw b (elim w [ inl p ↦ inl p | inr v ↦ inr (push-Waits_kept d k t h v) ])
  | inr b ↦ rw b (inr w)
]

AllFrom-Waits :
    (a : ℤ) (h : MinHeap) (k : Bytes) (t : ℤ) → AllFrom a h → Waits k t h → leb_ℤ a t ≡ true
AllFrom-Waits a [] k t q w = elim w [ ]
AllFrom-Waits a (d ∷ h) k t (x, q) (inl (_, e)) = subst (λ u. leb_ℤ a u ≡ true) e x
AllFrom-Waits a (d ∷ h) k t (x, q) (inr w) = AllFrom-Waits a h k t q w

-- Where nothing is due, nothing in the heap is.
pub pop_due-none :
    (now : ℤ) (h : MinHeap) (k : Bytes) (t : ℤ)
    → Sorted h
    → pop_due now h ≡ none
    → Waits k t h
    → leb_ℤ t now ≡ false
unfolding pop_due
pop_due-none now [] k t s e w = elim w [ ]
pop_due-none now (d ∷ h) k t (a, s) e w = elim (Bool-cases (leb_ℤ d.expire_at_ms now)) [
  | inl b ↦ absurd (due b)
  | inr b ↦ (elim w [
    | inl (_, q) ↦ subst (λ u. leb_ℤ u now ≡ false) q b
    | inr v ↦ later b (AllFrom-Waits d.expire_at_ms h k t a v)
  ])
]
  where
    first : Option (Bytes × MinHeap)
    first = some (d.key, h)

    gone : first ≡ none → ⊥
    gone q = cc

    due : leb_ℤ d.expire_at_ms now ≡ true → ⊥
    due b = gone (rw b at e)

    later : leb_ℤ d.expire_at_ms now ≡ false → leb_ℤ d.expire_at_ms t ≡ true → leb_ℤ t now ≡ false
    later b c = ground arith
