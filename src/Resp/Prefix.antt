-- ===== src/Resp/Prefix.antt =====
-- A multi-bulk answer that is not INCOMPLETE stands whatever arrives later, so a request that comes
-- in pieces is INCOMPLETE until its last byte is there.
use redis_cpp.Base.{
  ℕ, zero, suc, ◌+◌, ◌≤◌, ◌<◌, ◌≡◌, ◌≢◌, refl, sym, ap, subst, ◌∙◌, inl, inr, Bool, true, false,
  Option, none, some, List, [], ◌∷◌, ◌++◌, Bytes, ℤ, pos, negsuc, ltb, arith, take, drop, get_or,
  length, length-append, length-drop, get_or-append_lt, append-nil, take-append_le, drop-append_le,
  Bool-cases,
}
use redis_cpp.Resp.Encode.{array}
use redis_cpp.Resp.Scan.{parse_integer}
use redis_cpp.Resp.Lines.{parse_integer-append, parse_integer_bounds}
use redis_cpp.Resp.Rounds.{
  Fits, RoundView, at_end, no_dollar, no_header, has_header, round, take_arg-Fits,
  read_arg-no_dollar, read_arg-header,
}
use redis_cpp.Resp.Parser.{
  Result, complete, incomplete, error, Parsed, Outcome, returns, throws, ArgStep, arg, stop,
  take_arg, read_arg, read_args, multibulk_body, parse_multibulk, parse,
}
use redis_cpp.Resp.Steps.{parse_nil, parse_star, parse_multibulk-none, parse_multibulk-some}
use redis_cpp.Resp.Progress.{Reports, parse-Reports}
use redis_cpp.Resp.RoundTrip.{parse-array}

Fits-append : (v t : Bytes) → Fits (v ++ t) → Fits v
Fits-append v t f = omega (arith, length-append v t)

take_arg-append :
    (v t : Bytes) (z : ℤ) (after : ℕ)
    → Fits (v ++ t)
    → (n : ℕ) → parse_integer v n ≡ some (z, after)
    → take_arg v (z, after) ≢ stop incomplete
    → take_arg (v ++ t) (z, after) ≡ take_arg v (z, after)
take_arg-append v t (negsuc k) after f n p h = unfold take_arg in refl
take_arg-append v t (pos k) after f n p h =
    let b = parse_integer_bounds v n (pos k) after p in
    let f' = Fits-append v t f in
    let short = take_arg-Fits v k after b.2 b.1 f' in
    elim (Bool-cases (ltb (length v) (after + k + 2))) [
      | inl e ↦ absurd (h (rw e at short))
      | inr e ↦ same e (rw e at short)
    ]
  where
    same :
        ltb (length v) (after + k + 2) ≡ false
        → take_arg v (pos k, after) ≡ arg (take k (drop after v)) (after + k + 2)
        → take_arg (v ++ t) (pos k, after) ≡ take_arg v (pos k, after)
    same e short =
        let b = parse_integer_bounds v n (pos k) after p in
        let long : ltb (length (v ++ t)) (after + k + 2) ≡ false =
          ground (arith, length-append v t) in
        let inside : k ≤ length (drop after v) = ground (arith, length-drop after v) in
        rw (take_arg-Fits (v ++ t) k after b.2 (omega (arith, b.1, length-append v t)) f, short)
          (rw (long, drop-append_le after v t b.1, take-append_le k (drop after v) t inside) refl)

read_arg-append :
    (v t : Bytes) (here : ℕ)
    → Fits (v ++ t)
    → read_arg v here ≢ stop incomplete
    → read_arg (v ++ t) here ≡ read_arg v here
read_arg-append v t here f h = go (round v here)
  where
    inside : here < length v → here < length (v ++ t)
    inside w = omega (arith, length-append v t)

    same_byte : here < length v → get_or (v ++ t) here 0 ≡ get_or v here 0
    same_byte w = get_or-append_lt v t here 0 w

    go : RoundView v here → read_arg (v ++ t) here ≡ read_arg v here
    go (at_end w e) = absurd (h e)
    go (no_header w d p e) = absurd (h e)
    go (no_dollar w d e) =
        read_arg-no_dollar (v ++ t) here (inside w) (λ q. d (sym (same_byte w) ∙ q)) ∙ sym e
    go (has_header (z, after) w d p e) =
        read_arg-header (v ++ t) here (z, after) (inside w) (same_byte w ∙ d)
          (parse_integer-append v t (here + 1) (z, after) p)
        ∙ take_arg-append v t z after f (here + 1) p (λ q. h (e ∙ q))
        ∙ sym e

read_args-append :
    (v t : Bytes) (n here : ℕ) (args : List Bytes) (out : List (List Bytes)) (consumed : ℕ)
    → Fits (v ++ t)
    → (read_args v n here args out consumed).result ≢ incomplete
    → read_args (v ++ t) n here args out consumed ≡ read_args v n here args out consumed
unfolding read_args
read_args-append v t zero here args out consumed f h = refl
read_args-append v t (suc n) here args out consumed f h =
    go (λ a next. read_args-append v t n next (args ++ a ∷ []) out consumed f) (read_arg v here)
      refl
  where
    stops : (r : Result) → read_arg v here ≡ stop r → r ≢ incomplete
    stops r e c = h (rw (e, read_args) c)

    go :
        ((a : Bytes) (next : ℕ)
          → (read_args v n next (args ++ a ∷ []) out consumed).result ≢ incomplete
          → read_args (v ++ t) n next (args ++ a ∷ []) out consumed
            ≡ read_args v n next (args ++ a ∷ []) out consumed)
        → (s : ArgStep) → read_arg v here ≡ s
        → read_args (v ++ t) (suc n) here args out consumed
          ≡ read_args v (suc n) here args out consumed
    go ih (stop r) e =
        let e' = read_arg-append v t here f (λ q. stops r e (ground (arith, q, e))) ∙ e in
        rw (e', e, read_args) refl
    go ih (arg a next) e =
        let e' = read_arg-append v t here f (λ q. cc (q, e)) ∙ e in
        rw (e', e, read_args) (ih a next (λ c. h (rw (e, read_args) c)))

module _ (can_reserve : ℕ → Bool) (v t : Bytes) (out : List (List Bytes)) (consumed : ℕ) where
  multibulk_body-append :
      (z : ℤ) (next : ℕ)
      → Fits (v ++ t)
      → ((r : Parsed)
          → multibulk_body can_reserve v (z, next) out consumed ≡ returns r
          → r.result ≢ incomplete)
      → multibulk_body can_reserve (v ++ t) (z, next) out consumed
        ≡ multibulk_body can_reserve v (z, next) out consumed
  unfolding multibulk_body
  multibulk_body-append (negsuc n) next f h = refl
  multibulk_body-append (pos zero) next f h = refl
  multibulk_body-append (pos (suc n)) next f h = elim (Bool-cases (can_reserve (suc n))) [
    | inr e ↦ rw e refl
    | inl e ↦
        let h' = h (read_args v (suc n) next [] out consumed) (rw e refl) in
        rw e (ap returns (read_args-append v t (suc n) next [] out consumed f h'))
  ]

  -- Where parse_multibulk does not answer INCOMPLETE, its outcome, an exception included, is its
  -- outcome on the data with any bytes behind it, if those are together shorter than 2^62.
  pub parse_multibulk-append :
      Fits (v ++ t)
      → ((r : Parsed)
          → parse_multibulk can_reserve v out consumed ≡ returns r
          → r.result ≢ incomplete)
      → parse_multibulk can_reserve (v ++ t) out consumed
        ≡ parse_multibulk can_reserve v out consumed
  parse_multibulk-append f h = go (parse_integer v 1) refl
    where
      go :
          (o : Option (ℤ × ℕ))
          → parse_integer v 1 ≡ o
          → parse_multibulk can_reserve (v ++ t) out consumed
            ≡ parse_multibulk can_reserve v out consumed
      go none e = absurd (h _ (parse_multibulk-none can_reserve out consumed v e) refl)
      go (some (z, next)) e =
          let short = parse_multibulk-some can_reserve out consumed v (z, next) e in
          let long =
            parse_multibulk-some can_reserve out consumed (v ++ t) (z, next)
              (parse_integer-append v t 1 (z, next) e) in
          long ∙ multibulk_body-append z next f (λ r q. h r (short ∙ q)) ∙ sym short

module _ (can_reserve : ℕ → Bool) (item : Bytes) (items : List Bytes) (out : List (List Bytes))
    (consumed : ℕ) where
  request : Bytes
  request = array (item ∷ items)

  whole : Parsed
  whole = record { result = complete; cmds = out ++ (item ∷ items) ∷ []; consumed = length request }

  parse-request :
      Fits request
      → can_reserve (length (item ∷ items)) ≡ true
      → parse_multibulk can_reserve request out consumed ≡ returns whole
  unfolding request whole
  parse-request f r =
      sym star
      ∙ ap (λ d. parse can_reserve d out consumed) (sym (append-nil (array (item ∷ items))))
      ∙ parse-array can_reserve item items [] out consumed
          (subst Fits (sym (append-nil (array (item ∷ items)))) f) r
    where
      star :
          parse can_reserve (array (item ∷ items)) out consumed
          ≡ parse_multibulk can_reserve (array (item ∷ items)) out consumed
      star = unfold array in parse_star can_reserve out consumed b'*' _ refl

  piece_incomplete :
      (c : ℕ) (s : Bytes) (r : Parsed)
      → c ≡ b'*'
      → length (c ∷ s) < length request
      → Fits (c ∷ s)
      → (r.result ≢ incomplete → r ≡ whole)
      → parse_multibulk can_reserve (c ∷ s) out consumed ≡ returns r
      → r ≡ record { result = incomplete; cmds = out; consumed = consumed }
  unfolding whole
  piece_incomplete c s r star short f other p = go r.result refl (
      parse-Reports can_reserve (c ∷ s) out consumed r f
        (parse_star can_reserve out consumed c s (ground arith) ∙ p))
    where
      go :
          (o : Result)
          → r.result ≡ o
          → Reports (c ∷ s) 1 out consumed r
          → r ≡ record { result = incomplete; cmds = out; consumed = consumed }
      go incomplete e (inl (k, lo, hi, cmds)) = absurd (cc)
      go incomplete e (inr (k, cmds, same)) = ground arith
      go complete e (inl (k, lo, hi, cmds)) =
          let w = other (λ q. cc (q, e)) in
          absurd (omega (arith, hi, short, ap (λ x. x.consumed) w))
      go complete e (inr (k, cmds, same)) = absurd (k e)
      go error e rep = absurd (let w = other (λ q. cc (q, e)) in cc (w, e))

  -- What array prints for a request with at least one argument, cut anywhere before its end, is
  -- INCOMPLETE: nothing is appended, and the caller's frame_len keeps the value that it had. The
  -- request is shorter than 2^62 bytes and its vector can be reserved.
  pub parse-piece :
      (v t : Bytes)
      → v ++ t ≡ array (item ∷ items)
      → t ≢ []
      → Fits (array (item ∷ items))
      → can_reserve (length (item ∷ items)) ≡ true
      → parse can_reserve v out consumed
        ≡ returns (record { result = incomplete; cmds = out; consumed = consumed })
  parse-piece [] t e ne f r = parse_nil can_reserve out consumed
  parse-piece (c ∷ s) t e ne f r =
      parse_star can_reserve out consumed c s (ground (arith, star))
      ∙ go (parse_multibulk can_reserve (c ∷ s) out consumed) refl
    where
      star : c ≡ b'*'
      star = unfold array in cc

      longer : length (c ∷ s) < length request
      longer = unfold request in rw (← e) (rw (length-append (c ∷ s) t) (positive t ne))
        where
          positive : (t : Bytes) → t ≢ [] → length (c ∷ s) < length (c ∷ s) + length t
          positive [] ne = absurd (ne refl)
          positive (x ∷ t) ne = omega arith

      full : parse_multibulk can_reserve ((c ∷ s) ++ t) out consumed ≡ returns whole
      full =
          ap (λ d. parse_multibulk can_reserve d out consumed) e
          ∙ (unfold request in parse-request f r)

      kept :
          ((r : Parsed)
            → parse_multibulk can_reserve (c ∷ s) out consumed ≡ returns r
            → r.result ≢ incomplete)
          → parse_multibulk can_reserve (c ∷ s) out consumed ≡ returns whole
      kept h =
          sym (parse_multibulk-append can_reserve (c ∷ s) t out consumed (subst Fits (sym e) f) h)
          ∙ full

      go :
          (o : Outcome Parsed)
          → parse_multibulk can_reserve (c ∷ s) out consumed ≡ o
          → parse_multibulk can_reserve (c ∷ s) out consumed
            ≡ returns (record { result = incomplete; cmds = out; consumed = consumed })
      go throws p = absurd (let k = kept (λ r q. absurd (cc (p, q))) in cc (k, p))
      go (returns r) p = p ∙ ap returns (piece_incomplete c s r star longer fits other p)
        where
          fits : Fits (c ∷ s)
          fits = Fits-append (c ∷ s) t (subst Fits (sym e) f)

          other : r.result ≢ incomplete → r ≡ whole
          other ne = let k = kept (λ r' q i. ne (cc (p, q, i))) in cc (k, p)
