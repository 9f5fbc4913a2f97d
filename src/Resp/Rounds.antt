-- ===== src/Resp/Rounds.antt =====
-- One round of the loop over the arguments of a multi-bulk request: the tests that it makes, and
-- what it has seen when it takes an argument.
use redis_cpp.Base.{
  ℕ, true, false, ◌+◌, ◌%◌, ◌≤◌, ◌<◌, ◌≡◌, refl, sym, ◌∙◌, ◌≢◌, inl, inr, none, some, Bytes, ℤ, pos,
  negsuc, ltb, leb, ◌==◌, if◌then◌else◌, arith, take, drop, get_or, length, Bool-cases,
  Option-cases,
}
use redis_cpp.Resp.Scan.{parse_integer}
use redis_cpp.Resp.Lines.{parse_integer_bounds}
use redis_cpp.Resp.Parser.{incomplete, error, arg, stop, take_arg, read_arg}

-- A size far above what a receive buffer can hold (`max_recv_bytes` is a size_t, 65536 by default).
-- Below it the bound of an argument is computed with no wrap-around.
abbrev pub Fits : Bytes → Type 0
Fits v = length v < 4611686018427387904

-- What a round of the loop has seen when it takes an argument.
pub record Taken (v : Bytes) (here : ℕ) (a : Bytes) (next : ℕ) : Type 0 where
  pub blen : ℕ
  pub after : ℕ
  pub within : here < length v
  pub dollar : get_or v here 0 ≡ b'$'
  pub header : parse_integer v (here + 1) ≡ some (pos blen, after)
  pub small : blen < 9223372036854775808
  pub behind : here + 3 ≤ after
  pub text : a ≡ take blen (drop after v)
  pub next_eq : next ≡ after + blen + 2
  pub fits : next ≤ length v

no_wrap :
    (v : Bytes) (after blen : ℕ)
    → blen < 9223372036854775808
    → after ≤ length v
    → Fits v
    → (after + blen + 2) % 18446744073709551616 ≡ after + blen + 2
no_wrap v after blen hb ha hf = omega arith

-- Within these sizes the bound of an argument does not wrap around.
pub take_arg-Fits :
    (v : Bytes) (blen after : ℕ)
    → blen < 9223372036854775808
    → after ≤ length v
    → Fits v
    → take_arg v (pos blen, after) ≡ (
        if ltb (length v) (after + blen + 2)
        then stop incomplete
        else arg (take blen (drop after v)) (after + blen + 2))
unfolding take_arg
take_arg-Fits v blen after hb ha hf = rw (no_wrap v after blen hb ha hf) refl

header_Taken :
    (v : Bytes) (here : ℕ) (a : Bytes) (next : ℕ) (z : ℤ) (after : ℕ)
    → Fits v
    → here < length v
    → get_or v here 0 ≡ b'$'
    → parse_integer v (here + 1) ≡ some (z, after)
    → take_arg v (z, after) ≡ arg a next
    → Taken v here a next
header_Taken v here a next (negsuc n) after f w d p h = absurd (unfold take_arg in cc)
header_Taken v here a next (pos blen) after f w d p h =
    let b = parse_integer_bounds v (here + 1) (pos blen) after p in
    let h' = sym (take_arg-Fits v blen after b.2 b.1 f) ∙ h in
    record {
      blen = blen;
      after = after;
      within = w;
      dollar = d;
      header = p;
      small = b.2;
      behind = omega (arith, b.0);
      text = ground (arith, h');
      next_eq = ground (arith, h');
      fits = ground (arith, h');
    }

-- A round of the loop, by the three tests that it makes.
pub data RoundView (v : Bytes) (here : ℕ) : Type 0 where
  at_end : length v ≤ here → read_arg v here ≡ stop incomplete → RoundView v here
  no_dollar :
      here < length v → get_or v here 0 ≢ b'$' → read_arg v here ≡ stop error → RoundView v here
  no_header :
      here < length v
      → get_or v here 0 ≡ b'$'
      → parse_integer v (here + 1) ≡ none
      → read_arg v here ≡ stop incomplete
      → RoundView v here
  has_header :
      (h : ℤ × ℕ)
      → here < length v
      → get_or v here 0 ≡ b'$'
      → parse_integer v (here + 1) ≡ some h
      → read_arg v here ≡ take_arg v h
      → RoundView v here

pub read_arg-no_dollar :
    (v : Bytes) (here : ℕ) → here < length v → get_or v here 0 ≢ b'$' → read_arg v here ≡ stop error
unfolding read_arg
read_arg-no_dollar v here w d =
    let w' : leb (length v) here ≡ false = ground arith in
    let d' : (get_or v here 0 == b'$') ≡ false = ground arith in rw (w', d') refl

pub read_arg-header :
    (v : Bytes) (here : ℕ) (h : ℤ × ℕ)
    → here < length v
    → get_or v here 0 ≡ b'$'
    → parse_integer v (here + 1) ≡ some h
    → read_arg v here ≡ take_arg v h
unfolding read_arg
read_arg-header v here h w d p =
    let w' : leb (length v) here ≡ false = ground arith in
    let d' : (get_or v here 0 == b'$') ≡ true = ground arith in rw (w', d', p, read_arg) refl

pub round : (v : Bytes) (here : ℕ) → RoundView v here
round v here = elim (Bool-cases (leb (length v) here)) [
  | inl e ↦ at_end (ground arith) (unfold read_arg in rw e refl)
  | inr w ↦ inside (ground arith)
]
  where
    inside : here < length v → RoundView v here
    inside w = elim (Bool-cases (get_or v here 0 == b'$')) [
      | inr e ↦
          let d : get_or v here 0 ≢ b'$' = ground arith in
          no_dollar w d (read_arg-no_dollar v here w d)
      | inl e ↦
          (let d : get_or v here 0 ≡ b'$' = ground arith in
            elim (Option-cases (parse_integer v (here + 1))) [
              | inl p ↦ no_header w d p (no_number w e p)
              | inr (h, p) ↦ has_header h w d p (read_arg-header v here h w d p)
            ])
    ]
      where
        no_number :
            here < length v
            → (get_or v here 0 == b'$') ≡ true
            → parse_integer v (here + 1) ≡ none
            → read_arg v here ≡ stop incomplete
        no_number w d p =
            let w' : leb (length v) here ≡ false = ground arith in
            unfold read_arg in rw (w', d, p, read_arg) refl

pub read_arg-Taken :
    (v : Bytes) (here : ℕ) (a : Bytes) (next : ℕ)
    → Fits v
    → read_arg v here ≡ arg a next
    → Taken v here a next
read_arg-Taken v here a next f h = go (round v here)
  where
    go : RoundView v here → Taken v here a next
    go (at_end w e) = absurd (cc)
    go (no_dollar w d e) = absurd (cc)
    go (no_header w d p e) = absurd (cc)
    go (has_header (z, after) w d p e) = header_Taken v here a next z after f w d p (sym e ∙ h)
