-- ===== src/Resp/Parser.antt =====
-- The request parser of src/protocol/RespParser.cpp: `parse`, `parse_multibulk` and `parse_inline`.
-- Sizes are `size_t`, so the sum that bounds an argument is taken modulo 2^64.
use redis_cpp.Base.{
  ℕ, zero, suc, ◌+◌, ◌%◌, Bool, not, none, some, List, [], ◌∷◌, ◌++◌, Bytes, ℤ, pos, negsuc, ltb,
  leb, ◌==◌, if◌then◌else◌, length, get_or, take, drop,
}
use redis_cpp.Resp.Scan.{parse_integer}
use redis_cpp.Resp.Inline.{tokens, line_end, push_command}

-- RespParser::Result
pub data Result : Type 0 where
  complete incomplete error : Result

-- `result`, and the two variables that the caller passes by reference.
pub record Parsed : Type 0 where
  pub result : Result
  pub cmds : List (List Bytes)
  pub consumed : ℕ

-- A call returns, or an exception of the standard library leaves it.
pub data Outcome {ℓ} (A : Type ℓ) : Type ℓ where
  returns : A → Outcome A
  throws : Outcome A

-- One round of the loop over the arguments.
pub data ArgStep : Type 0 where
  arg : Bytes → ℕ → ArgStep
  stop : Result → ArgStep

-- `blen` bytes from `after_hdr` on, and two more, must lie within the data.
unfoldable pub take_arg : Bytes → ℤ × ℕ → ArgStep
take_arg v (negsuc _, after_hdr) = stop error
take_arg v (pos blen, after_hdr) =
    let next = (after_hdr + blen + 2) % 18446744073709551616 in
    if ltb (length v) next then stop incomplete else arg (take blen (drop after_hdr v)) next

unfoldable pub read_arg : Bytes → ℕ → ArgStep
unfolding take_arg
read_arg v here =
    if leb (length v) here
    then stop incomplete
    else if not (get_or v here 0 == b'$')
    then stop error
    else (elim (parse_integer v (here + 1)) [ none ↦ stop incomplete | some h ↦ take_arg v h ])

-- The loop, over the number of arguments that are left.
unfoldable pub read_args : Bytes → ℕ → ℕ → List Bytes → List (List Bytes) → ℕ → Parsed
read_args v zero here args out consumed = record {
  result = complete;
  cmds = out ++ args ∷ [];
  consumed = here;
}
read_args v (suc n) here args out consumed = elim (read_arg v here) [
  | arg a next ↦ read_args v n next (args ++ a ∷ []) out consumed
  | stop r ↦ record { result = r; cmds = out; consumed = consumed }
]

unfoldable pub parse_inline : Bytes → List (List Bytes) → ℕ → Parsed
parse_inline v out consumed = elim (line_end v) [
  | none ↦ record { result = incomplete; cmds = out; consumed = consumed }
  | some (crlf, next) ↦
      let line = take crlf v in
      record {
        result = complete;
        cmds = push_command out (tokens (length line) [] line);
        consumed = next;
      }
]

-- `can_reserve n` says whether `std::vector<std::string>::reserve(n)` succeeds: it throws where `n`
-- is above `max_size()`, and where the memory is not there.
module _ (can_reserve : ℕ → Bool) where
  -- What follows the first line, `*N`.
  unfoldable pub multibulk_body : Bytes → ℤ × ℕ → List (List Bytes) → ℕ → Outcome Parsed
  multibulk_body v (negsuc _, next) out consumed =
      returns (record { result = error; cmds = out; consumed = consumed })
  multibulk_body v (pos zero, next) out consumed =
      returns (record { result = complete; cmds = out ++ [] ∷ []; consumed = next })
  multibulk_body v (pos (suc n), next) out consumed =
      if can_reserve (suc n) then returns (read_args v (suc n) next [] out consumed) else throws

  unfoldable pub parse_multibulk : Bytes → List (List Bytes) → ℕ → Outcome Parsed
  parse_multibulk v out consumed = elim (parse_integer v 1) [
    | none ↦ returns (record { result = incomplete; cmds = out; consumed = consumed })
    | some h ↦ multibulk_body v h out consumed
  ]

  unfoldable pub parse : Bytes → List (List Bytes) → ℕ → Outcome Parsed
  parse [] out consumed = returns (record { result = incomplete; cmds = out; consumed = consumed })
  parse (c ∷ s) out consumed =
      if c == b'*'
      then parse_multibulk (c ∷ s) out consumed
      else returns (parse_inline (c ∷ s) out consumed)
