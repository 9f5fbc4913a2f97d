-- ===== src/Net/Sending.antt =====
-- `Connection::flush` of src/net/Connection.hpp: the kernel takes the replies in order.
use redis_cpp.Base.{
  ℕ, zero, suc, ◌+◌, ◌-◌, ◌≤◌, ◌≡◌, ◌≢◌, ◌⊎◌, refl, sym, ap, ◌∙◌, [], ◌∷◌, ◌++◌, Bytes, ltb, length,
  take, drop, arith, drop-drop, append_assoc, Bool-cases, inl, inr,
}
use redis_cpp.Net.Connection.{
  Connection, Written, wrote, would_block, failed, FlushEnd, sent_all, more_pending, fatal,
  flush_loop, flush_end, flush,
}

-- What of the send buffer the kernel has not taken.
abbrev pub unsent : Connection → Bytes
unsent c = drop c.send_offset c.send_buf

pub take-drop : (n : ℕ) (s : Bytes) → take n s ++ drop n s ≡ s
take-drop zero s = refl
take-drop (suc n) [] = refl
take-drop (suc n) (c ∷ s) = ap (λ x. c ∷ x) (take-drop n s)

drop_past : (n : ℕ) (s : Bytes) → length s ≤ n → drop n s ≡ []
drop_past zero [] h = refl
drop_past (suc n) [] h = refl
drop_past zero (c ∷ s) h = absurd (omega arith)
drop_past (suc n) (c ∷ s) h = drop_past n s (omega arith)

-- How the loop ends: with 0 only if nothing is left.
abbrev Ends : Bytes → ℕ → Bytes → FlushEnd × ℕ × Bytes → Type 0
Ends buf offset taken (end, offset', taken') =
    (taken' ++ drop offset' buf ≡ taken ++ drop offset buf)
    × ((end ≢ sent_all) ⊎ (drop offset' buf ≡ []))

flush_loop-Ends :
    (kernel : ℕ → Written) (fuel i : ℕ) (buf : Bytes) (offset : ℕ) (taken : Bytes)
    → length buf ≤ offset + fuel
    → Ends buf offset taken (flush_loop kernel fuel i buf offset taken)
unfolding flush_loop
flush_loop-Ends kernel zero i buf offset taken h = (refl, inr (drop_past offset buf (omega arith)))
flush_loop-Ends kernel (suc fuel) i buf offset taken h =
    elim (Bool-cases (ltb offset (length buf))) [
      | inr e ↦ rw e (refl, inr (drop_past offset buf (ground arith)))
      | inl e ↦ rw e (
          answered (kernel i) (λ n.
            flush_loop-Ends kernel fuel (i + 1) buf (offset + suc n)
              (taken ++ take (suc n) (drop offset buf)) (omega arith)))
    ]
  where
    together :
        (n : ℕ) → take (suc n) (drop offset buf) ++ drop (offset + suc n) buf ≡ drop offset buf
    together n =
        ap (λ x. take (suc n) (drop offset buf) ++ x) (sym (drop-drop (suc n) offset buf))
        ∙ take-drop (suc n) (drop offset buf)

    answered :
        (a : Written)
        → ((n : ℕ)
            → Ends buf (offset + suc n) (taken ++ take (suc n) (drop offset buf)) (
                flush_loop kernel fuel
                  (i + 1)
                  buf
                  (offset + suc n)
                  (taken ++ take (suc n) (drop offset buf))))
        → Ends buf offset taken (elim a [
          | would_block ↦ (more_pending, offset, taken)
          | failed ↦ (fatal, offset, taken)
          | wrote zero ↦ (fatal, offset, taken)
          | wrote (suc n) ↦
              flush_loop kernel fuel
                (i + 1)
                buf
                (offset + suc n)
                (taken ++ take (suc n) (drop offset buf))
        ])
    answered would_block rest = (refl, inl (λ q. absurd cc))
    answered failed rest = (refl, inl (λ q. absurd cc))
    answered (wrote zero) rest = (refl, inl (λ q. absurd cc))
    answered (wrote (suc n)) rest = (
      (rest n).0
          ∙ append_assoc taken (take (suc n) (drop offset buf)) (drop (offset + suc n) buf)
          ∙ ap (λ x. taken ++ x) (together n),
      (rest n).1,
    )

-- Whatever the calls of write return, the bytes that the kernel takes during flush, followed by
-- those that are unsent behind it, are the bytes that were unsent before, and a result of 0
-- leaves none unsent.
pub flush-unsent :
    (kernel : ℕ → Written) (c : Connection)
    → ((flush kernel c).2 ++ unsent (flush kernel c).0 ≡ unsent c)
      × (((flush kernel c).1 ≢ sent_all) ⊎ (unsent (flush kernel c).0 ≡ []))
unfolding flush flush_end
flush-unsent kernel c =
    go (flush_loop kernel (length c.send_buf - c.send_offset) 0 c.send_buf c.send_offset []) (
      flush_loop-Ends kernel (length c.send_buf - c.send_offset) 0 c.send_buf c.send_offset []
        (omega arith))
  where
    go :
        (r : FlushEnd × ℕ × Bytes)
        → Ends c.send_buf c.send_offset [] r
        → ((flush_end c r).2 ++ unsent (flush_end c r).0 ≡ unsent c)
          × (((flush_end c r).1 ≢ sent_all) ⊎ (unsent (flush_end c r).0 ≡ []))
    go (sent_all, offset, taken) (kept, inr e) = (ap (λ x. taken ++ x) (sym e) ∙ kept, inr refl)
    go (sent_all, offset, taken) (kept, inl ne) = absurd (ne refl)
    go (more_pending, offset, taken) h = (h.0, inl (λ q. absurd cc))
    go (fatal, offset, taken) h = (h.0, inl (λ q. absurd cc))
