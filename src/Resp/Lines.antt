-- ===== src/Resp/Lines.antt =====
-- Laws of the scanning helpers: where `find_crlf` and `parse_integer` stop, that more data behind
-- does not change a number that was found, and that a printed number is read back.
use redis_cpp.Base.{
  ℕ, ◌+◌, ◌-◌, ◌≤◌, ◌<◌, ◌≡◌, refl, sym, ap, subst, ◌∙◌, inl, inr, true, false, none, some, [], ◌∷◌,
  ◌++◌, Bytes, ℤ, pos, InInt64, ◌==◌, arith, take, drop, length, length-drop, drop-append_le,
  take-append_le, drop-append_length, take-append_length, Option-cases,
}
use redis_cpp.Decimal.{FromChars, from_chars, is_digit, to_string_ℕ, to_string}
use redis_cpp.Decimal.RoundTrip.{
  AllDigits, to_string_ℕ-AllDigits, from_chars-to_string, from_chars-InInt64,
}
use redis_cpp.Resp.Encode.{crlf}
use redis_cpp.Resp.Scan.{crlf_from, find_crlf, whole_number, parse_integer}

crlf_from_bounds :
    (i : ℕ) (s : Bytes) (j : ℕ) → crlf_from i s ≡ some j → (i ≤ j) × (j + 2 ≤ i + length s)
unfolding crlf_from
crlf_from_bounds i [] j h = absurd (cc)
crlf_from_bounds i (a ∷ []) j h = absurd (cc)
crlf_from_bounds i (a ∷ b ∷ s) j h = ground (arith, crlf_from_bounds (i + 1) (b ∷ s) j)

crlf_from-append :
    (i : ℕ) (s t : Bytes) (j : ℕ) → crlf_from i s ≡ some j → crlf_from i (s ++ t) ≡ some j
unfolding crlf_from
crlf_from-append i [] t j h = absurd (cc)
crlf_from-append i (a ∷ []) t j h = absurd (cc)
crlf_from-append i (a ∷ b ∷ s) t j h = ground (arith, crlf_from-append (i + 1) (b ∷ s) t j)

not_cr : (c : ℕ) → is_digit c ≡ true → (c == 13) ≡ false
unfolding is_digit
not_cr c h = ground arith

crlf_from_digits :
    (i : ℕ) (s rest : Bytes) → AllDigits s → crlf_from i (s ++ (crlf ++ rest)) ≡ some (i + length s)
unfolding crlf_from
crlf_from_digits i [] rest h = ap some (omega arith)
crlf_from_digits i (c ∷ []) rest h =
    rw (not_cr c h.0) (crlf_from_digits (i + 1) [] rest tt ∙ ap some (omega arith))
crlf_from_digits i (c ∷ d ∷ s) rest h =
    rw (not_cr c h.0) (crlf_from_digits (i + 1) (d ∷ s) rest h.1 ∙ ap some (omega arith))

pub find_crlf_bounds :
    (v : Bytes) (from j : ℕ) → find_crlf v from ≡ some j → (from ≤ j) × (j + 2 ≤ length v)
unfolding find_crlf
find_crlf_bounds v from j h =
    let b = crlf_from_bounds from (drop from v) j h in
    (b.0, omega (arith, b.0, b.1, length-drop from v))

find_crlf-append :
    (v t : Bytes) (from j : ℕ) → find_crlf v from ≡ some j → find_crlf (v ++ t) from ≡ some j
find_crlf-append v t from j h =
    let b = find_crlf_bounds v from j h in
    unfold find_crlf in
    rw (drop-append_le from v t (omega (arith, b.0, b.1)))
      (crlf_from-append from (drop from v) t j h)

whole_number_next :
    (r : FromChars) (n : ℕ) (z : ℤ) (next : ℕ)
    → whole_number r n ≡ some (z, next)
    → (r.value ≡ z) × (next ≡ n)
unfolding whole_number
whole_number_next r n z next h = ground arith

-- The text between `from` and the line's end.
abbrev line_text : Bytes → ℕ → ℕ → Bytes
line_text v from j = take (j - from) (drop from v)

parse_integer_at :
    (v : Bytes) (from j : ℕ)
    → find_crlf v from ≡ some j
    → parse_integer v from ≡ whole_number (from_chars (line_text v from j)) (j + 2)
unfolding parse_integer
parse_integer_at v from j e = rw (e, parse_integer) refl

parse_integer_line :
    (v : Bytes) (from : ℕ) (h : ℤ × ℕ)
    → parse_integer v from ≡ some h
    → (j : ℕ) × (find_crlf v from ≡ some j)
      × (whole_number (from_chars (line_text v from j)) (j + 2) ≡ some h)
parse_integer_line v from h p = elim (Option-cases (find_crlf v from)) [
  | inl e ↦ absurd (none_found e)
  | inr (j, e) ↦ (j, e, sym (parse_integer_at v from j e) ∙ p)
]
  where
    none_found : find_crlf v from ≡ none → ⊥
    none_found e =
        let p' : parse_integer v from ≡ none = unfold parse_integer in rw (e, parse_integer) refl in
        cc

-- A number that parse_integer finds ends, with its "\r\n", within the data.
pub parse_integer_bounds :
    (v : Bytes) (from : ℕ) (z : ℤ) (next : ℕ)
    → parse_integer v from ≡ some (z, next)
    → (from + 2 ≤ next) × (next ≤ length v) × InInt64 z
parse_integer_bounds v from z next h =
    let (j, e, w) = parse_integer_line v from (z, next) h in
    let text = line_text v from j in
    let n = whole_number_next (from_chars text) (j + 2) z next w in
    let b = find_crlf_bounds v from j e in
    (omega (arith, n.1, b.0), omega (arith, n.1, b.1), subst InInt64 n.0 (from_chars-InInt64 text))

-- More data behind a number does not change it.
pub parse_integer-append :
    (v t : Bytes) (from : ℕ) (h : ℤ × ℕ)
    → parse_integer v from ≡ some h
    → parse_integer (v ++ t) from ≡ some h
parse_integer-append v t from h p =
    let (j, e, w) = parse_integer_line v from h p in
    let b = find_crlf_bounds v from j e in
    parse_integer_at (v ++ t) from j (find_crlf-append v t from j e)
    ∙ rw
        (
          drop-append_le from v t (omega (arith, b.0, b.1)),
          take-append_le (j - from) (drop from v) t (omega (arith, b.0, b.1, length-drop from v)),
        )
        w

-- A printed number is read back, whatever stands before and behind it.
pub parse_integer-to_string :
    (before rest : Bytes) (n : ℕ)
    → n < 9223372036854775808
    → parse_integer (before ++ (to_string (pos n) ++ (crlf ++ rest))) (length before)
      ≡ some (pos n, length before + length (to_string (pos n)) + 2)
parse_integer-to_string before rest n h =
    parse_integer_at _ (length before) (length before + length text) found ∙ rw text_of read
  where
    text : Bytes
    text = to_string (pos n)

    found :
        find_crlf (before ++ (text ++ (crlf ++ rest))) (length before)
        ≡ some (length before + length text)
    found =
        unfold find_crlf to_string in
        rw (drop-append_length before (to_string_ℕ n ++ (crlf ++ rest)))
          (crlf_from_digits (length before) (to_string_ℕ n) rest (to_string_ℕ-AllDigits n))

    text_of :
        line_text (before ++ (text ++ (crlf ++ rest))) (length before) (length before + length text)
        ≡ text
    text_of = rw (drop-append_length before (text ++ (crlf ++ rest))) (
        let e : length before + length text - length before ≡ length text = omega arith in
        rw e (take-append_length text (crlf ++ rest)))

    read :
        whole_number (from_chars text) (length before + length text + 2)
        ≡ some (pos n, length before + length text + 2)
    read = unfold whole_number in rw (from_chars-to_string (pos n) h) refl
