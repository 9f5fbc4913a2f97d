-- ===== src/Decimal.antt =====
-- The number routines of the C++ standard library that the program calls: `std::to_string`,
-- `std::from_chars` for `int64_t`, `std::stoll` and `std::stoi`. The laws are in the child module.
pub mod RoundTrip
use redis_cpp.Base.{
  ℕ, zero, suc, ◌+◌, ◌-◌, ◌*◌, ◌/◌, ◌%◌, Bool, true, false, ◌&&◌, ◌||◌, Option, none, some, List,
  [], ◌∷◌, Bytes, ℤ, pos, negsuc, ltb, leb, ◌==◌, if◌then◌else◌,
}

-- The decimal digits of `n`, put before `out`. `n` itself is fuel enough: a division by ten lowers it.
emit : ℕ → ℕ → Bytes → Bytes
emit zero n out = out
emit (suc f) n out =
    let rest = emit f (n / 10) ((b'0' + n % 10) ∷ out) in if n == 0 then out else rest

unfoldable pub to_string_ℕ : ℕ → Bytes
unfolding emit
to_string_ℕ n = if n == 0 then b'0' ∷ [] else emit n n []

-- std::to_string
unfoldable pub to_string : ℤ → Bytes
unfolding to_string_ℕ
to_string (pos n) = to_string_ℕ n
to_string (negsuc n) = b'-' ∷ to_string_ℕ (suc n)

unfoldable pub is_digit : ℕ → Bool
is_digit c = leb b'0' c && leb c b'9'

-- The longest run of digits: its value, counted on from `acc`, and what follows it.
unfoldable pub scan_digits : ℕ → Bytes → ℕ × Bytes
unfolding is_digit
scan_digits acc [] = (acc, [])
scan_digits acc (c ∷ s) =
    let rest = scan_digits (acc * 10 + (c - b'0')) s in if is_digit c then rest else (acc, c ∷ s)

unfoldable pub starts_with_digit : Bytes → Bool
unfolding is_digit
starts_with_digit [] = false
starts_with_digit (c ∷ s) = is_digit c

-- std::errc
pub data Errc : Type 0 where
  no_error invalid_argument result_out_of_range : Errc

-- What std::from_chars reports: the text from `ptr` on, the error code, and the number (which the
-- caller's variable takes only where there is no error).
pub record FromChars : Type 0 where
  pub rest : Bytes
  pub ec : Errc
  pub value : ℤ

-- A magnitude within `limit`, with its sign.
ranged : ℕ → (ℕ → ℤ) → ℕ × Bytes → FromChars
ranged limit sign (n, rest) =
    if leb n limit
    then record { rest = rest; ec = no_error; value = sign n }
    else record { rest = rest; ec = result_out_of_range; value = pos 0 }

unfoldable pub negate : ℕ → ℤ
negate zero = pos 0
negate (suc n) = negsuc n

from_digits : ℕ → (ℕ → ℤ) → Bytes → Bytes → FromChars
from_digits limit sign whole s =
    if starts_with_digit s
    then ranged limit sign (scan_digits 0 s)
    else record { rest = whole; ec = invalid_argument; value = pos 0 }

-- std::from_chars(first, last, int64_t&): an optional '-', then digits; no blanks and no '+'.
unfoldable pub from_chars : Bytes → FromChars
unfolding from_digits ranged starts_with_digit scan_digits negate
from_chars [] = from_digits 9223372036854775807 pos [] []
from_chars (c ∷ s) =
    if c == b'-'
    then from_digits 9223372036854775808 negate (c ∷ s) s
    else from_digits 9223372036854775807 pos (c ∷ s) (c ∷ s)

-- The bytes that `isspace` accepts.
is_space : ℕ → Bool
is_space c = c == b' ' || (leb 9 c && leb c 13)

skip_spaces : Bytes → Bytes
unfolding is_space
skip_spaces [] = []
skip_spaces (c ∷ s) = let rest = skip_spaces s in if is_space c then rest else c ∷ s

in_range : FromChars → Option ℤ
in_range r = elim r.ec [ no_error ↦ some r.value | _ ↦ none ]

-- strtoll after the blanks: an optional sign, then digits; what follows the digits is ignored.
signed : ℕ → ℕ → Bytes → Option ℤ
unfolding from_digits ranged starts_with_digit scan_digits negate in_range
signed top bottom [] = none
signed top bottom (c ∷ s) =
    if c == b'-'
    then in_range (from_digits bottom negate s s)
    else if c == b'+'
    then in_range (from_digits top pos s s)
    else in_range (from_digits top pos (c ∷ s) (c ∷ s))

-- std::stoll; `none` stands for the exceptions `invalid_argument` and `out_of_range`.
unfoldable pub stoll : Bytes → Option ℤ
unfolding signed skip_spaces
stoll s = signed 9223372036854775807 9223372036854775808 (skip_spaces s)

-- std::stoi, for a 32-bit `int`.
unfoldable pub stoi : Bytes → Option ℤ
unfolding signed skip_spaces
stoi s = signed 2147483647 2147483648 (skip_spaces s)
