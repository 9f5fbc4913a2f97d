-- ===== src/Net/Drained.antt =====
-- The loop of extract_frames ends on every buffer, and only where parse has no more to give.
use redis_cpp.Base.{
  ℕ, zero, suc, ◌+◌, ◌≤◌, ◌≡◌, ◌⊎◌, inl, inr, refl, sym, ap, subst, ◌∙◌, Bool, true, false, List,
  [], ◌∷◌, Bytes, leb, if◌then◌else◌, length, drop, arith, length-drop, Bool-cases,
}
use redis_cpp.Resp.Parser.{Parsed, Result, complete, incomplete, error, returns, throws, parse}
use redis_cpp.Resp.Rounds.{Fits}
use redis_cpp.Resp.Steps.{parse_nil}
use redis_cpp.Resp.Progress.{Refused, Reports, parse-answers}
use redis_cpp.Net.Frames.{LoopEnd, Extracted, compact, frames_loop, extract_frames}

module _ (can_reserve : ℕ → Bool) where
  -- Parse waits for more behind `v`, when it has given `out` so far.
  abbrev pub Stuck : Bytes → List (List Bytes) → Type 0
  Stuck v out =
      parse can_reserve v out 0 ≡ returns (record { result = incomplete; cmds = out; consumed = 0 })

  abbrev EndsWell : ℕ → Bytes → LoopEnd → Type 0
  EndsWell consumed buf e =
      (consumed ≤ e.consumed)
      × (e.consumed ≤ length buf)
      × ((e.alive ≡ false) ⊎ Stuck (drop e.consumed buf) e.cmds)

  -- The loop ends well, or by the exception of a parse at a header that is refused.
  abbrev Finishes : ℕ → ℕ → Bytes → List (List Bytes) → Type 0
  Finishes fuel consumed buf out =
      ((frames_loop can_reserve fuel buf consumed out ≡ throws)
        × (n : ℕ) × (consumed ≤ n)
        × (n ≤ length buf)
        × Refused can_reserve (drop n buf))
      ⊎ ((e : LoopEnd) × (frames_loop can_reserve fuel buf consumed out ≡ returns e)
          × EndsWell consumed buf e)

  frames_loop-throws :
      (fuel consumed : ℕ) (buf : Bytes) (out : List (List Bytes))
      → leb (length buf) consumed ≡ false
      → parse can_reserve (drop consumed buf) out 0 ≡ throws
      → frames_loop can_reserve (suc fuel) buf consumed out ≡ throws
  unfolding frames_loop
  frames_loop-throws fuel consumed buf out more p = rw (more, p, frames_loop) refl

  frames_loop-complete :
      (fuel consumed : ℕ) (buf : Bytes) (out : List (List Bytes)) (r : Parsed)
      → leb (length buf) consumed ≡ false
      → parse can_reserve (drop consumed buf) out 0 ≡ returns r
      → r.result ≡ complete
      → frames_loop can_reserve (suc fuel) buf consumed out
        ≡ frames_loop can_reserve fuel buf (consumed + r.consumed) r.cmds
  unfolding frames_loop
  frames_loop-complete fuel consumed buf out r more p c =
      rw (more, p, frames_loop) (rw (c, frames_loop) refl)

  frames_loop-incomplete :
      (fuel consumed : ℕ) (buf : Bytes) (out : List (List Bytes)) (r : Parsed)
      → leb (length buf) consumed ≡ false
      → parse can_reserve (drop consumed buf) out 0 ≡ returns r
      → r.result ≡ incomplete
      → frames_loop can_reserve (suc fuel) buf consumed out
        ≡ returns (record { consumed = consumed; cmds = r.cmds; alive = true })
  unfolding frames_loop
  frames_loop-incomplete fuel consumed buf out r more p c =
      rw (more, p, frames_loop) (rw (c, frames_loop) refl)

  frames_loop-error :
      (fuel consumed : ℕ) (buf : Bytes) (out : List (List Bytes)) (r : Parsed)
      → leb (length buf) consumed ≡ false
      → parse can_reserve (drop consumed buf) out 0 ≡ returns r
      → r.result ≡ error
      → frames_loop can_reserve (suc fuel) buf consumed out
        ≡ returns (record { consumed = consumed; cmds = r.cmds; alive = false })
  unfolding frames_loop
  frames_loop-error fuel consumed buf out r more p c =
      rw (more, p, frames_loop) (rw (c, frames_loop) refl)

  -- The end of the buffer.
  frames_loop-empty :
      (fuel consumed : ℕ) (buf : Bytes) (out : List (List Bytes))
      → (fuel ≡ 0) ⊎ (leb (length buf) consumed ≡ true)
      → frames_loop can_reserve fuel buf consumed out
        ≡ returns (record { consumed = consumed; cmds = out; alive = true })
  unfolding frames_loop
  frames_loop-empty zero consumed buf out h = refl
  frames_loop-empty (suc fuel) consumed buf out (inl e) = absurd cc
  frames_loop-empty (suc fuel) consumed buf out (inr e) = rw e refl

  drop_all : (n : ℕ) (v : Bytes) → length v ≤ n → drop n v ≡ []
  drop_all zero [] h = refl
  drop_all (suc n) [] h = refl
  drop_all zero (c ∷ v) h = absurd (omega arith)
  drop_all (suc n) (c ∷ v) h = drop_all n v (omega arith)

  at_end :
      (fuel consumed : ℕ) (buf : Bytes) (out : List (List Bytes))
      → consumed ≤ length buf
      → length buf ≤ consumed
      → (fuel ≡ 0) ⊎ (leb (length buf) consumed ≡ true)
      → (e : LoopEnd) × (frames_loop can_reserve fuel buf consumed out ≡ returns e)
        × EndsWell consumed buf e
  at_end fuel consumed buf out hi lo h = (
    _,
    frames_loop-empty fuel consumed buf out h,
    (
      omega arith,
      hi,
      inr (subst (λ v. Stuck v out) (sym (drop_all consumed buf lo)) (parse_nil can_reserve out 0)),
    ),
  )

  frames_loop-Finishes :
      (fuel consumed : ℕ) (buf : Bytes) (out : List (List Bytes))
      → consumed ≤ length buf
      → length buf ≤ consumed + fuel
      → Fits buf
      → Finishes fuel consumed buf out
  frames_loop-Finishes zero consumed buf out hi f fits =
      inr (at_end zero consumed buf out hi (omega arith) (inl refl))
  frames_loop-Finishes (suc fuel) consumed buf out hi f fits =
      elim (Bool-cases (leb (length buf) consumed)) [
        | inl e ↦ inr (at_end (suc fuel) consumed buf out hi (ground arith) (inr e))
        | inr e ↦
            first e
              (parse-answers can_reserve out 0 (drop consumed buf)
                (omega (arith, length-drop consumed buf)))
              (λ m cmds lo h.
                frames_loop-Finishes fuel (consumed + m) buf cmds
                  (omega (arith, h, length-drop consumed buf)) (omega arith) fits)
      ]
    where
      Next : Type 0
      Next =
          (m : ℕ) (cmds : List (List Bytes))
          → 1 ≤ m
          → m ≤ length (drop consumed buf)
          → Finishes fuel (consumed + m) buf cmds

      after :
          leb (length buf) consumed ≡ false
          → (r : Parsed) → parse can_reserve (drop consumed buf) out 0 ≡ returns r
          → r.result ≡ complete
          → Finishes fuel (consumed + r.consumed) buf r.cmds
          → Finishes (suc fuel) consumed buf out
      after more r p c (inl (q, n, lo, hi', refused)) =
          inl (
            frames_loop-complete fuel consumed buf out r more p c ∙ q,
            n,
            omega arith,
            hi',
            refused,
          )
      after more r p c (inr (e, q, w)) = inr (
        e,
        frames_loop-complete fuel consumed buf out r more p c ∙ q,
        (omega (arith, w.0), w.1, w.2),
      )

      round :
          leb (length buf) consumed ≡ false
          → (r : Parsed) → parse can_reserve (drop consumed buf) out 0 ≡ returns r
          → Reports (drop consumed buf) 1 out 0 r
          → Next
          → Finishes (suc fuel) consumed buf out
      round more r p (inl (c, lo, small, one)) next =
          after more r p c (next r.consumed r.cmds lo small)
      round more r p (inr (c, same, unread)) next = stop r.result refl
        where
          as_read :
              r.result ≡ incomplete → r ≡ record { result = incomplete; cmds = out; consumed = 0 }
          as_read e = ground arith

          stop : (o : Result) → r.result ≡ o → Finishes (suc fuel) consumed buf out
          stop complete e = absurd (c e)
          stop error e =
              inr
                (_, frames_loop-error fuel consumed buf out r more p e, (omega arith, hi, inl refl))
          stop incomplete e = inr (
            _,
            frames_loop-incomplete fuel consumed buf out r more p e,
            (
              omega arith,
              hi,
              inr (subst (Stuck (drop consumed buf)) (sym same) (p ∙ ap returns (as_read e))),
            ),
          )

      first :
          leb (length buf) consumed ≡ false
          → ((parse can_reserve (drop consumed buf) out 0 ≡ throws)
              × Refused can_reserve (drop consumed buf))
            ⊎ ((r : Parsed) × (parse can_reserve (drop consumed buf) out 0 ≡ returns r)
                × (¬ Refused can_reserve (drop consumed buf))
                × Reports (drop consumed buf) 1 out 0 r)
          → Next
          → Finishes (suc fuel) consumed buf out
      first more (inl (p, refused)) next =
          inl (frames_loop-throws fuel consumed buf out more p, consumed, omega arith, hi, refused)
      first more (inr (r, p, ok, rep)) next = round more r p rep next

  kept :
      (buf : Bytes) (e : LoopEnd)
      → (e.alive ≡ false) ⊎ Stuck (drop e.consumed buf) e.cmds
      → (e.alive ≡ true) ⊎ (e.alive ≡ false)
      → (e.alive ≡ false)
        ⊎ (((compact buf e).recv_buf ≡ drop e.consumed buf) × Stuck (compact buf e).recv_buf e.cmds)
  kept buf e w (inr dead) = inl dead
  kept buf e (inl dead) (inl live) = inl dead
  kept buf e (inr stuck) (inl live) =
      let same : (compact buf e).recv_buf ≡ drop e.consumed buf =
        ap (λ b. if b then drop e.consumed buf else buf) live in
      inr (same, subst (λ v. Stuck v e.cmds) (sym same) stuck)

  -- On a buffer shorter than 2^62 bytes, extract_frames either throws, and then at some place in
  -- the buffer there is a first line that announces a number of arguments whose vector cannot be
  -- reserved; or it returns, and either its connection is closed or the buffer that it leaves is
  -- a suffix of the one it had, on which parse is INCOMPLETE.
  pub extract_frames_drained :
      (buf : Bytes)
      → Fits buf
      → ((extract_frames can_reserve buf ≡ throws)
          × (n : ℕ) × (n ≤ length buf)
          × Refused can_reserve (drop n buf))
        ⊎ ((e : Extracted) × (n : ℕ) × (extract_frames can_reserve buf ≡ returns e)
            × (n ≤ length buf)
            × ((e.alive ≡ false) ⊎ ((e.recv_buf ≡ drop n buf) × Stuck e.recv_buf e.cmds)))
  unfolding extract_frames
  extract_frames_drained buf fits =
      elim (frames_loop-Finishes (length buf) 0 buf [] (omega arith) (omega arith) fits) [
        | inl (p, n, lo, hi, refused) ↦ inl (rw (p, extract_frames) refl, n, hi, refused)
        | inr (e, p, w) ↦ inr (
          compact buf e,
          e.consumed,
          rw (p, extract_frames) refl,
          w.1,
          kept buf e w.2 (Bool-cases e.alive),
        )
      ]
