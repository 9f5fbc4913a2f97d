-- ===== src/Resp/Steps.antt =====
-- The top of the parser step by step, so that proofs can keep its parts shut.
use redis_cpp.Base.{
  ℕ, suc, ◌≡◌, refl, Bool, true, false, ◌==◌, none, some, List, [], ◌∷◌, Bytes, ℤ, pos,
}
use redis_cpp.Resp.Scan.{parse_integer}
use redis_cpp.Resp.Parser.{
  incomplete, returns, throws, read_args, multibulk_body, parse_inline, parse_multibulk, parse,
}

module _ (can_reserve : ℕ → Bool) (out : List (List Bytes)) (consumed : ℕ) where
  pub parse_nil :
      parse can_reserve [] out consumed
      ≡ returns (record { result = incomplete; cmds = out; consumed = consumed })
  unfolding parse
  parse_nil = refl

  pub parse_star :
      (c : ℕ) (s : Bytes)
      → (c == b'*') ≡ true
      → parse can_reserve (c ∷ s) out consumed ≡ parse_multibulk can_reserve (c ∷ s) out consumed
  unfolding parse
  parse_star c s e = rw e refl

  pub parse_no_star :
      (c : ℕ) (s : Bytes)
      → (c == b'*') ≡ false
      → parse can_reserve (c ∷ s) out consumed ≡ returns (parse_inline (c ∷ s) out consumed)
  unfolding parse
  parse_no_star c s e = rw e refl

  pub parse_multibulk-none :
      (v : Bytes)
      → parse_integer v 1 ≡ none
      → parse_multibulk can_reserve v out consumed
        ≡ returns (record { result = incomplete; cmds = out; consumed = consumed })
  unfolding parse_multibulk
  parse_multibulk-none v e = rw (e, parse_multibulk) refl

  pub parse_multibulk-some :
      (v : Bytes) (h : ℤ × ℕ)
      → parse_integer v 1 ≡ some h
      → parse_multibulk can_reserve v out consumed ≡ multibulk_body can_reserve v h out consumed
  unfolding parse_multibulk
  parse_multibulk-some v h e = rw (e, parse_multibulk) refl

  pub multibulk_body-reserved :
      (v : Bytes) (n next : ℕ)
      → can_reserve (suc n) ≡ true
      → multibulk_body can_reserve v (pos (suc n), next) out consumed
        ≡ returns (read_args v (suc n) next [] out consumed)
  unfolding multibulk_body
  multibulk_body-reserved v n next e = rw e refl

  pub multibulk_body-refused :
      (v : Bytes) (n next : ℕ)
      → can_reserve (suc n) ≡ false
      → multibulk_body can_reserve v (pos (suc n), next) out consumed ≡ throws
  unfolding multibulk_body
  multibulk_body-refused v n next e = rw e refl
