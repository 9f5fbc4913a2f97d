-- ===== src/Decimal/RoundTrip.antt =====
-- A printed number is read back, by from_chars, stoll and stoi.
use redis_cpp.Base.{
  InInt32, ℕ, zero, suc, ◌+◌, ◌-◌, ◌*◌, ◌/◌, ◌%◌, ◌≤◌, ◌<◌, ◌≡◌, refl, sym, ap, ◌∙◌, inl, inr, true,
  false, some, [], ◌∷◌, ◌++◌, Bytes, ℤ, pos, negsuc, InInt64, ◌==◌, arith, Bool-cases, append-nil,
}
use redis_cpp.Decimal.{
  emit, to_string_ℕ, to_string, is_digit, scan_digits, starts_with_digit, no_error, ranged, negate,
  from_digits, from_chars, is_space, skip_spaces, in_range, signed, stoll, stoi,
}

-- Every byte of a printed magnitude is a digit.
abbrev pub AllDigits : Bytes → Type 0
AllDigits [] = Unit {0}
AllDigits (c ∷ s) = (is_digit c ≡ true) × AllDigits s

digit_of_mod : (n : ℕ) → is_digit (b'0' + n % 10) ≡ true
unfolding is_digit
digit_of_mod n = ground arith

emit-AllDigits : (f n : ℕ) (out : Bytes) → AllDigits out → AllDigits (emit f n out)
unfolding emit
emit-AllDigits zero n out h = h
emit-AllDigits (suc f) n out h = elim (Bool-cases (n == 0)) [
  | inl e ↦ rw e h
  | inr e ↦ rw e (emit-AllDigits f (n / 10) ((b'0' + n % 10) ∷ out) (digit_of_mod n, h))
]

pub to_string_ℕ-AllDigits : (n : ℕ) → AllDigits (to_string_ℕ n)
unfolding to_string_ℕ
to_string_ℕ-AllDigits n = elim (Bool-cases (n == 0)) [
  | inl e ↦ rw e (unfold is_digit in (refl, tt))
  | inr e ↦ rw e (emit-AllDigits n n [] tt)
]

emit-append : (f n : ℕ) (out rest : Bytes) → emit f n out ++ rest ≡ emit f n (out ++ rest)
unfolding emit
emit-append zero n out rest = refl
emit-append (suc f) n out rest = elim (Bool-cases (n == 0)) [
  | inl e ↦ rw e refl
  | inr e ↦ rw e (emit-append f (n / 10) ((b'0' + n % 10) ∷ out) rest)
]

scan_digit :
    (acc d : ℕ) (s : Bytes)
    → d < 10
    → scan_digits acc ((b'0' + d) ∷ s) ≡ scan_digits (acc * 10 + d) s
unfolding scan_digits
scan_digit acc d s h =
    let e : is_digit (b'0' + d) ≡ true = unfold is_digit in ground arith in
    let v : acc * 10 + (b'0' + d - b'0') ≡ acc * 10 + d = omega arith in rw (e, v)

scan-emit : (f n : ℕ) (out : Bytes) → n ≤ f → scan_digits 0 (emit f n out) ≡ scan_digits n out
unfolding emit
scan-emit zero n out h = ap (λ k. scan_digits k out) (omega arith)
scan-emit (suc f) n out h = elim (Bool-cases (n == 0)) [
  | inl e ↦ rw e (ap (λ k. scan_digits k out) (ground arith))
  | inr e ↦ rw e (
      scan-emit f (n / 10) ((b'0' + n % 10) ∷ out) (ground arith)
      ∙ scan_digit (n / 10) (n % 10) out (omega arith)
      ∙ ap (λ k. scan_digits k out) (omega arith))
]

-- The text after a number does not begin with a digit.
abbrev pub Ends : Bytes → Type 0
Ends s = starts_with_digit s ≡ false

scan_end : (n : ℕ) (s : Bytes) → Ends s → scan_digits n s ≡ (n, s)
unfolding scan_digits starts_with_digit
scan_end n [] h = refl
scan_end n (c ∷ s) h = rw h

pub scan-to_string_ℕ : (n : ℕ) (s : Bytes) → Ends s → scan_digits 0 (to_string_ℕ n ++ s) ≡ (n, s)
unfolding to_string_ℕ
scan-to_string_ℕ n s h = elim (Bool-cases (n == 0)) [
  | inl e ↦ rw e (scan_digit 0 0 s (omega arith) ∙ scan_end 0 s h ∙ ap (λ k. (k, s)) (ground arith))
  | inr e ↦
      rw e
        (ap (scan_digits 0) (emit-append n n [] s) ∙ scan-emit n n s (omega arith) ∙ scan_end n s h)
]

-- A printed magnitude begins with a digit.
abbrev Head : Bytes → Type 0
Head [] = ⊥
Head (c ∷ s) = is_digit c ≡ true

emit-Head : (f n c : ℕ) (out : Bytes) → is_digit c ≡ true → Head (emit f n (c ∷ out))
unfolding emit
emit-Head zero n c out h = h
emit-Head (suc f) n c out h = elim (Bool-cases (n == 0)) [
  | inl e ↦ rw e h
  | inr e ↦ rw e (emit-Head f (n / 10) (b'0' + n % 10) (c ∷ out) (digit_of_mod n))
]

emit_pos-Head : (f n : ℕ) → 0 < n → n ≤ f → Head (emit f n [])
unfolding emit
emit_pos-Head zero n p h = absurd (omega arith)
emit_pos-Head (suc f) n p h =
    let e : (n == 0) ≡ false = ground arith in
    rw e (emit-Head f (n / 10) (b'0' + n % 10) [] (digit_of_mod n))

to_string_ℕ-Head : (n : ℕ) → Head (to_string_ℕ n)
unfolding to_string_ℕ
to_string_ℕ-Head n = elim (Bool-cases (n == 0)) [
  | inl e ↦ rw e (unfold is_digit in refl)
  | inr e ↦ rw e (emit_pos-Head n n (ground arith) (omega arith))
]

from_digits-to_string_ℕ :
    (limit n : ℕ) (sign : ℕ → ℤ) (whole : Bytes) (s : Bytes)
    → Head s
    → scan_digits 0 s ≡ (n, [])
    → n ≤ limit
    → from_digits limit sign whole s ≡ record { rest = []; ec = no_error; value = sign n }
unfolding from_digits ranged starts_with_digit
from_digits-to_string_ℕ limit n sign whole [] p e h = absurd p
from_digits-to_string_ℕ limit n sign whole (c ∷ s) p e h = rw (p, e) (ground arith)

scan_whole : (n : ℕ) → scan_digits 0 (to_string_ℕ n) ≡ (n, [])
scan_whole n =
    ap (scan_digits 0) (sym (append-nil (to_string_ℕ n)))
    ∙ scan-to_string_ℕ n [] (unfold starts_with_digit in refl)

from_chars_digits :
    (n : ℕ) (s : Bytes)
    → Head s
    → scan_digits 0 s ≡ (n, [])
    → n < 9223372036854775808
    → from_chars s ≡ record { rest = []; ec = no_error; value = pos n }
unfolding from_chars is_digit
from_chars_digits n [] p e h = absurd p
from_chars_digits n (c ∷ s) p e h =
    let m : (c == b'-') ≡ false = ground arith in
    rw m (from_digits-to_string_ℕ 9223372036854775807 n pos (c ∷ s) (c ∷ s) p e (omega arith))

-- from_chars reads every `int64_t` back from what std::to_string prints, to the end of the text.
pub from_chars-to_string :
    (z : ℤ) → InInt64 z → from_chars (to_string z) ≡ record { rest = []; ec = no_error; value = z }
unfolding to_string
from_chars-to_string (pos n) h =
    from_chars_digits n (to_string_ℕ n) (to_string_ℕ-Head n) (scan_whole n) h
from_chars-to_string (negsuc n) h =
    unfold from_chars negate in
    from_digits-to_string_ℕ 9223372036854775808 (suc n) negate (b'-' ∷ to_string_ℕ (suc n))
      (to_string_ℕ (suc n)) (to_string_ℕ-Head (suc n)) (scan_whole (suc n)) (omega arith)

signed_digits :
    (top bottom n : ℕ) (s : Bytes)
    → Head s
    → scan_digits 0 s ≡ (n, [])
    → n ≤ top
    → signed top bottom (skip_spaces s) ≡ some (pos n)
unfolding signed skip_spaces is_space is_digit in_range
signed_digits top bottom n [] p e h = absurd p
signed_digits top bottom n (c ∷ s) p e h =
    let x : is_space c ≡ false = ground arith in
    let m : (c == b'-') ≡ false = ground arith in
    let q : (c == b'+') ≡ false = ground arith in
    rw (x, m, q, from_digits-to_string_ℕ top n pos (c ∷ s) (c ∷ s) p e h) refl

-- stoi reads every `int` back from what std::to_string prints.
pub stoi-to_string : (z : ℤ) → InInt32 z → stoi (to_string z) ≡ some z
unfolding stoi to_string
stoi-to_string (pos n) h =
    signed_digits 2147483647 2147483648 n (to_string_ℕ n) (to_string_ℕ-Head n) (scan_whole n)
      (omega arith)
stoi-to_string (negsuc n) h =
    unfold signed skip_spaces is_space in_range negate in
    rw
      (from_digits-to_string_ℕ 2147483648 (suc n) negate (to_string_ℕ (suc n)) (to_string_ℕ (suc n))
        (to_string_ℕ-Head (suc n)) (scan_whole (suc n)) (omega arith))
      refl

-- stoll reads every `int64_t` back from what std::to_string prints.
pub stoll-to_string : (z : ℤ) → InInt64 z → stoll (to_string z) ≡ some z
unfolding stoll to_string
stoll-to_string (pos n) h =
    signed_digits 9223372036854775807 9223372036854775808 n (to_string_ℕ n) (to_string_ℕ-Head n)
      (scan_whole n) (omega arith)
stoll-to_string (negsuc n) h =
    unfold signed skip_spaces is_space in_range negate in
    rw
      (from_digits-to_string_ℕ 9223372036854775808 (suc n) negate (to_string_ℕ (suc n))
        (to_string_ℕ (suc n)) (to_string_ℕ-Head (suc n)) (scan_whole (suc n)) (omega arith))
      refl

-- A number that from_chars reports is an `int64_t`.
pub from_chars-InInt64 : (s : Bytes) → InInt64 (from_chars s).value
unfolding from_chars from_digits ranged negate
from_chars-InInt64 [] = ground arith
from_chars-InInt64 (c ∷ s) = ground arith
