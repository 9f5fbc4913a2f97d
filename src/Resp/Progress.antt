-- ===== src/Resp/Progress.antt =====
-- What `parse` reports of its input: a complete frame is not empty and lies within the data, and
-- without a complete frame nothing is appended and nothing is consumed.
use redis_cpp.Base.{
  ℕ, zero, suc, ◌+◌, ◌≤◌, ◌<◌, ◌≡◌, refl, sym, subst, ◌∙◌, ◌≢◌, ◌⊎◌, inl, inr, Bool, Option, none,
  some, List, [], ◌∷◌, ◌++◌, Bytes, ℤ, pos, negsuc, ◌==◌, arith, length, Bool-cases, Option-cases,
  false, ap,
}
use redis_cpp.Resp.Scan.{find_crlf, find_byte, parse_integer}
use redis_cpp.Resp.Inline.{end_of_line, line_end, push_command}
use redis_cpp.Resp.Lines.{parse_integer_bounds, find_crlf_bounds}
use redis_cpp.Resp.Parser.{
  Result, complete, Parsed, Outcome, returns, throws, ArgStep, arg, stop, take_arg, read_arg,
  read_args, parse_inline, multibulk_body, parse_multibulk, parse,
}
use redis_cpp.Resp.Steps.{
  parse_nil, parse_star, parse_no_star, parse_multibulk-none, parse_multibulk-some,
}
use redis_cpp.Resp.Rounds.{
  Fits, RoundView, at_end, no_dollar, no_header, has_header, round, read_arg-Taken,
}

read_arg-stop : (v : Bytes) (here : ℕ) (r : Result) → read_arg v here ≡ stop r → r ≢ complete
unfolding read_arg take_arg
read_arg-stop v here r h = go (round v here)
  where
    header : (z : ℤ) (after : ℕ) → take_arg v (z, after) ≡ stop r → r ≢ complete
    header (negsuc n) after e c = cc
    header (pos n) after e c = ground arith

    go : RoundView v here → r ≢ complete
    go (at_end w e) c = cc
    go (no_dollar w d e) c = cc
    go (no_header w d p e) c = cc
    go (has_header (z, after) w d p e) c = header z after (sym e ∙ h) c

-- What a parse reports: a frame that ends behind its start and within the data, with at most one
-- command appended; or nothing appended and nothing consumed.
abbrev pub Reports : Bytes → ℕ → List (List Bytes) → ℕ → Parsed → Type 0
Reports v here out consumed r =
    ((r.result ≡ complete)
      × (here ≤ r.consumed)
      × (r.consumed ≤ length v)
      × ((r.cmds ≡ out) ⊎ ((cmd : List Bytes) × (r.cmds ≡ out ++ cmd ∷ []))))
    ⊎ ((r.result ≢ complete) × (r.cmds ≡ out) × (r.consumed ≡ consumed))

later :
    (v : Bytes) (out : List (List Bytes)) (consumed a b : ℕ) (r : Parsed)
    → b ≤ a
    → Reports v a out consumed r
    → Reports v b out consumed r
later v out consumed a b r le (inl (c, lo, hi, k)) = inl (c, omega arith, hi, k)
later v out consumed a b r le (inr k) = inr k

returns-injective {ℓ} : {A : Type ℓ} {a b : A} → returns a ≡ returns b → a ≡ b
returns-injective h = cc

read_args-Reports :
    (v : Bytes) (n here : ℕ) (args : List Bytes) (out : List (List Bytes)) (consumed : ℕ)
    → Fits v
    → here ≤ length v
    → Reports v here out consumed (read_args v n here args out consumed)
unfolding read_args
read_args-Reports v zero here args out consumed f h = inl (refl, omega arith, h, inr (args, refl))
read_args-Reports v (suc n) here args out consumed f h =
    go (λ a next. read_args-Reports v n next (args ++ a ∷ []) out consumed f) (read_arg v here) refl
  where
    go :
        ((a : Bytes) (next : ℕ)
          → next ≤ length v
          → Reports v next out consumed (read_args v n next (args ++ a ∷ []) out consumed))
        → (s : ArgStep) → read_arg v here ≡ s
        → Reports v here out consumed (read_args v (suc n) here args out consumed)
    go ih (stop r) e = rw (e, read_args) (inr (read_arg-stop v here r e, refl, refl))
    go ih (arg a next) e =
        let t = read_arg-Taken v here a next f e in
        rw (e, read_args)
          (later v out consumed next here _ (omega (arith, t.behind, t.next_eq)) (ih a next t.fits))

find_byte_bounds :
    (x i : ℕ) (s : Bytes) (j : ℕ) → find_byte x i s ≡ some j → (i ≤ j) × (j < i + length s)
unfolding find_byte
find_byte_bounds x i [] j h = absurd (cc)
find_byte_bounds x i (a ∷ s) j h = ground (arith, find_byte_bounds x (i + 1) s j)

end_of_line_bounds :
    (v : Bytes) (o b : Option ℕ) (crlf next : ℕ)
    → ((j : ℕ) → o ≡ some j → j + 2 ≤ length v)
    → ((j : ℕ) → b ≡ some j → j < length v)
    → end_of_line v o b ≡ some (crlf, next)
    → (crlf < next) × (next ≤ length v)
unfolding end_of_line
end_of_line_bounds v (some j) b crlf next ho hb h = ground (arith, ho j refl)
end_of_line_bounds v none none crlf next ho hb h = absurd (cc)
end_of_line_bounds v none (some lf) crlf next ho hb h = ground (arith, hb lf refl)

line_end_bounds :
    (v : Bytes) (crlf next : ℕ) → line_end v ≡ some (crlf, next) → (crlf < next) × (next ≤ length v)
line_end_bounds v crlf next h =
    end_of_line_bounds v (find_crlf v 0) (find_byte 10 0 v) crlf next
      (λ j e. (find_crlf_bounds v 0 j e).1) (λ j e. omega (arith, (find_byte_bounds 10 0 v j e).1))
      (unfold line_end in h)

push_command-one :
    (out : List (List Bytes)) (args : List Bytes)
    → (push_command out args ≡ out)
      ⊎ ((cmd : List Bytes) × (push_command out args ≡ out ++ cmd ∷ []))
unfolding push_command
push_command-one out [] = inl refl
push_command-one out (name ∷ args) = inr (_, refl)

parse_inline-Reports :
    (v : Bytes) (out : List (List Bytes)) (consumed : ℕ)
    → Reports v 1 out consumed (parse_inline v out consumed)
unfolding parse_inline
parse_inline-Reports v out consumed = elim (Option-cases (line_end v)) [
  | inl e ↦ rw (e, parse_inline) (inr ((λ c. cc), refl, refl))
  | inr ((crlf, next), e) ↦
      let b = line_end_bounds v crlf next e in
      rw (e, parse_inline) (inl (refl, omega (arith, b.0), b.1, push_command-one out _))
]

module _ (can_reserve : ℕ → Bool) where
  multibulk_body-Reports :
      (v : Bytes) (z : ℤ) (next : ℕ) (out : List (List Bytes)) (consumed : ℕ) (r : Parsed)
      → Fits v
      → 1 ≤ next
      → next ≤ length v
      → multibulk_body can_reserve v (z, next) out consumed ≡ returns r
      → Reports v 1 out consumed r
  unfolding multibulk_body
  multibulk_body-Reports v (negsuc n) next out consumed r f lo hi h =
      subst (Reports v 1 out consumed) (returns-injective h) (inr ((λ c. cc), refl, refl))
  multibulk_body-Reports v (pos zero) next out consumed r f lo hi h =
      subst (Reports v 1 out consumed) (returns-injective h) (inl (refl, lo, hi, inr ([], refl)))
  multibulk_body-Reports v (pos (suc n)) next out consumed r f lo hi h =
      elim (Bool-cases (can_reserve (suc n))) [
        | inr e ↦ absurd (let h' = rw e at h in cc)
        | inl e ↦ subst (Reports v 1 out consumed) (returns-injective (rw e at h)) (
            later v out consumed next 1 _ lo
              (read_args-Reports v (suc n) next [] out consumed f hi))
      ]

  -- The same for the whole of parse, where it returns.
  pub parse-Reports :
      (v : Bytes) (out : List (List Bytes)) (consumed : ℕ) (r : Parsed)
      → Fits v
      → parse can_reserve v out consumed ≡ returns r
      → Reports v 1 out consumed r
  parse-Reports [] out consumed r f h =
      subst (Reports [] 1 out consumed)
        (returns-injective (sym (parse_nil can_reserve out consumed) ∙ h))
        (inr ((λ c. cc), refl, refl))
  parse-Reports (c ∷ s) out consumed r f h = elim (Bool-cases (c == b'*')) [
    | inl e ↦
        multibulk (parse_integer (c ∷ s) 1) refl
          (sym (parse_star can_reserve out consumed c s e) ∙ h)
    | inr e ↦
        subst (Reports (c ∷ s) 1 out consumed)
          (returns-injective (sym (parse_no_star can_reserve out consumed c s e) ∙ h))
          (parse_inline-Reports (c ∷ s) out consumed)
  ]
    where
      multibulk :
          (o : Option (ℤ × ℕ))
          → parse_integer (c ∷ s) 1 ≡ o
          → parse_multibulk can_reserve (c ∷ s) out consumed ≡ returns r
          → Reports (c ∷ s) 1 out consumed r
      multibulk none e p =
          subst (Reports (c ∷ s) 1 out consumed)
            (returns-injective (sym (parse_multibulk-none can_reserve out consumed (c ∷ s) e) ∙ p))
            (inr ((λ c. cc), refl, refl))
      multibulk (some (z, next)) e p =
          let b = parse_integer_bounds (c ∷ s) 1 z next e in
          multibulk_body-Reports (c ∷ s) z next out consumed r f (omega (arith, b.0)) b.1
            (sym (parse_multibulk-some can_reserve out consumed (c ∷ s) (z, next) e) ∙ p)

  -- The first line announces a number of arguments that cannot be reserved.
  abbrev pub Refused : Bytes → Type 0
  Refused [] = ⊥
  Refused (c ∷ s) =
      (c ≡ b'*')
      × (n : ℕ) × (next : ℕ) × (parse_integer (c ∷ s) 1 ≡ some (pos (suc n), next))
      × (can_reserve (suc n) ≡ false)

  module _ (out : List (List Bytes)) (consumed : ℕ) where
    multibulk_body-throws :
        (v : Bytes) (z : ℤ) (next : ℕ)
        → multibulk_body can_reserve v (z, next) out consumed ≡ throws
        → (n : ℕ) × (z ≡ pos (suc n)) × (can_reserve (suc n) ≡ false)
    unfolding multibulk_body
    multibulk_body-throws v (negsuc n) next h = absurd cc
    multibulk_body-throws v (pos zero) next h = absurd cc
    multibulk_body-throws v (pos (suc n)) next h = elim (Bool-cases (can_reserve (suc n))) [
      | inl e ↦ absurd (let h' = rw e at h in cc)
      | inr e ↦ (n, refl, e)
    ]

    parse-throws : (v : Bytes) → parse can_reserve v out consumed ≡ throws → Refused v
    parse-throws [] h = absurd (let q = parse_nil can_reserve out consumed in cc)
    parse-throws (c ∷ s) h = elim (Bool-cases (c == b'*')) [
      | inl e ↦
          (let (n, next, p, full) =
              multibulk (parse_integer (c ∷ s) 1) refl
                (sym (parse_star can_reserve out consumed c s e) ∙ h) in
            (ground arith, n, next, p, full))
      | inr e ↦ absurd (let q = parse_no_star can_reserve out consumed c s e in cc)
    ]
      where
        multibulk :
            (o : Option (ℤ × ℕ))
            → parse_integer (c ∷ s) 1 ≡ o
            → parse_multibulk can_reserve (c ∷ s) out consumed ≡ throws
            → (n : ℕ) × (next : ℕ) × (parse_integer (c ∷ s) 1 ≡ some (pos (suc n), next))
              × (can_reserve (suc n) ≡ false)
        multibulk none e p =
            absurd (let q = parse_multibulk-none can_reserve out consumed (c ∷ s) e in cc)
        multibulk (some (z, next)) e p =
            let (n, same, full) =
              multibulk_body-throws (c ∷ s) z next
                (sym (parse_multibulk-some can_reserve out consumed (c ∷ s) (z, next) e) ∙ p) in
            (n, next, e ∙ ap (λ y. some (y, next)) same, full)

    Refused-throws : (v : Bytes) → Refused v → parse can_reserve v out consumed ≡ throws
    Refused-throws [] h = absurd h
    Refused-throws (c ∷ s) (star, n, next, e, full) =
        parse_star can_reserve out consumed c s (ground arith)
        ∙ parse_multibulk-some can_reserve out consumed (c ∷ s) (pos (suc n), next) e
        ∙ (unfold multibulk_body in rw full refl)

    -- On data shorter than 2^62 bytes, parse throws exactly where the first line announces a
    -- number of arguments whose vector cannot be reserved, and otherwise it returns; a COMPLETE
    -- answer has consumed at least one byte and at most all of them and appended at most one
    -- command, and any other answer appended nothing and left the caller's frame_len as it was.
    pub parse-answers :
        (v : Bytes)
        → Fits v
        → ((parse can_reserve v out consumed ≡ throws) × Refused v)
          ⊎ ((r : Parsed) × (parse can_reserve v out consumed ≡ returns r)
              × (¬ Refused v)
              × Reports v 1 out consumed r)
    parse-answers v f = go (parse can_reserve v out consumed) refl
      where
        go :
            (o : Outcome Parsed)
            → parse can_reserve v out consumed ≡ o
            → ((parse can_reserve v out consumed ≡ throws) × Refused v)
              ⊎ ((r : Parsed) × (parse can_reserve v out consumed ≡ returns r)
                  × (¬ Refused v)
                  × Reports v 1 out consumed r)
        go throws p = inl (p, parse-throws v p)
        go (returns r) p =
            inr (r, p, (λ h. let q = Refused-throws v h in cc), parse-Reports v out consumed r f p)
