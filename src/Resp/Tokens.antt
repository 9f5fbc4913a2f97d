-- ===== src/Resp/Tokens.antt =====
-- The loop of parse_inline over a line ends, for each round takes at least one byte.
use redis_cpp.Base.{
  ℕ, zero, suc, ◌≤◌, ◌<◌, ◌≡◌, refl, sym, ap, ◌∙◌, false, ◌==◌, List, [], ◌∷◌, ◌++◌, Bytes, length,
  arith, Bool-cases, inl, inr,
}
use redis_cpp.Resp.Inline.{
  is_blank, skip_blanks, escape, quoted, after_backslash, plain, next_token, tokens,
}

mutual
  unfolding quoted

  quoted_shorter : (token s : Bytes) → length (quoted token s).1 ≤ length s
  quoted_shorter token [] = omega arith
  quoted_shorter token (c ∷ s) = elim (Bool-cases (c == b'"')) [
    | inl e ↦ rw e (omega arith)
    | inr e ↦ rw e (elim (Bool-cases (c == 92)) [
      | inl f ↦ rw f (omega (arith, after_backslash_shorter token s))
      | inr f ↦ rw f (omega (arith, quoted_shorter (token ++ c ∷ []) s))
    ])
  ]

  after_backslash_shorter : (token s : Bytes) → length (after_backslash token s).1 ≤ length s
  after_backslash_shorter token [] = omega arith
  after_backslash_shorter token (c ∷ s) = omega (arith, quoted_shorter (token ++ escape c ∷ []) s)

plain_shorter : (token s : Bytes) → length (plain token s).1 ≤ length s
unfolding plain
plain_shorter token [] = omega arith
plain_shorter token (c ∷ s) = elim (Bool-cases (is_blank c)) [
  | inl e ↦ rw e (omega arith)
  | inr e ↦ rw e (omega (arith, plain_shorter (token ++ c ∷ []) s))
]

next_token_shorter : (c : ℕ) (s : Bytes) → is_blank c ≡ false → length (next_token c s).1 ≤ length s
unfolding next_token plain
next_token_shorter c s h = elim (Bool-cases (c == b'"')) [
  | inl e ↦ rw e (quoted_shorter [] s)
  | inr e ↦ rw e (rw h (plain_shorter (c ∷ []) s))
]

skip_blanks-cons :
    (s : Bytes) (c : ℕ) (r : Bytes)
    → skip_blanks s ≡ c ∷ r
    → (is_blank c ≡ false) × (length r < length s)
unfolding skip_blanks
skip_blanks-cons [] c r h = absurd cc
skip_blanks-cons (b ∷ s) c r h = elim (Bool-cases (is_blank b)) [
  | inl e ↦ (let (p, q) = skip_blanks-cons s c r (rw e at h) in (p, omega arith))
  | inr e ↦
      (let h' : b ∷ s ≡ c ∷ r = rw e at h in
        (ap is_blank {x = c} {y = b} (cc) ∙ e, omega (arith, ap length h')))
]

pub tokens-step :
    (fuel : ℕ) (args : List Bytes) (s : Bytes) (c : ℕ) (r : Bytes)
    → skip_blanks s ≡ c ∷ r
    → tokens (suc fuel) args s ≡ tokens fuel (args ++ (next_token c r).0 ∷ []) (next_token c r).1
unfolding tokens
tokens-step fuel args s c r h = rw (h, tokens) refl

tokens-end :
    (fuel : ℕ) (args : List Bytes) (s : Bytes) → skip_blanks s ≡ [] → tokens fuel args s ≡ args
unfolding tokens
tokens-end zero args s h = refl
tokens-end (suc fuel) args s h = rw (h, tokens) refl

-- The loop over the tokens of an inline line gives the same tokens for all fuels that are at
-- least the length of the line: it ends by itself within that many rounds.
pub tokens_enough :
    (fuel more : ℕ) (args : List Bytes) (s : Bytes)
    → length s ≤ fuel
    → length s ≤ more
    → tokens fuel args s ≡ tokens more args s
tokens_enough fuel more args [] h h' =
    tokens-end fuel args [] blank ∙ sym (tokens-end more args [] blank)
  where
    blank : skip_blanks [] ≡ []
    blank = unfold skip_blanks in refl
tokens_enough zero more args (x ∷ s) h h' = absurd (omega arith)
tokens_enough (suc fuel) zero args (x ∷ s) h h' = absurd (omega arith)
tokens_enough (suc fuel) (suc more) args (x ∷ s) h h' =
    go (λ args' s' e e'. tokens_enough fuel more args' s' e e') (skip_blanks (x ∷ s)) refl
  where
    go :
        ((args' : List Bytes) (s' : Bytes)
          → length s' ≤ fuel
          → length s' ≤ more
          → tokens fuel args' s' ≡ tokens more args' s')
        → (o : Bytes) → skip_blanks (x ∷ s) ≡ o
        → tokens (suc fuel) args (x ∷ s) ≡ tokens (suc more) args (x ∷ s)
    go same [] e = tokens-end (suc fuel) args (x ∷ s) e ∙ sym (tokens-end (suc more) args (x ∷ s) e)
    go same (c ∷ r) e =
        let (p, q) = skip_blanks-cons (x ∷ s) c r e in
        let shorter = next_token_shorter c r p in
        tokens-step fuel args (x ∷ s) c r e
        ∙ same (args ++ (next_token c r).0 ∷ []) (next_token c r).1 (omega (arith, h, q, shorter))
            (omega (arith, h', q, shorter))
        ∙ sym (tokens-step more args (x ∷ s) c r e)
