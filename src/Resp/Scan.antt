-- ===== src/Resp/Scan.antt =====
-- The scanning helpers of src/protocol/RespParser.cpp: `find_crlf` and `parse_integer`.
use redis_cpp.Base.{
  ℕ, ◌+◌, ◌-◌, ◌&&◌, Option, none, some, [], ◌∷◌, Bytes, ℤ, ◌==◌, if◌then◌else◌, take, drop,
}
use redis_cpp.Decimal.{FromChars, no_error, from_chars}

-- The index of the first "\r\n" in a text whose first byte has index `i`.
unfoldable pub crlf_from : ℕ → Bytes → Option ℕ
crlf_from i [] = none
crlf_from i (a ∷ []) = none
crlf_from i (a ∷ b ∷ s) =
    let later = crlf_from (i + 1) (b ∷ s) in if (a == 13) && (b == 10) then some i else later

unfoldable pub find_crlf : Bytes → ℕ → Option ℕ
unfolding crlf_from
find_crlf v from = crlf_from from (drop from v)

-- `std::string_view::find` of one byte
unfoldable pub find_byte : ℕ → ℕ → Bytes → Option ℕ
find_byte x i [] = none
find_byte x i (a ∷ s) = let later = find_byte x (i + 1) s in if a == x then some i else later

-- The number must take up the whole of its line.
unfoldable pub whole_number : FromChars → ℕ → Option (ℤ × ℕ)
whole_number r next = elim r.ec [
  | no_error ↦ (elim r.rest [ [] ↦ some (r.value, next) | _ ↦ none ])
  | _ ↦ none
]

-- `none` is the result false; otherwise `out_val` and `next`.
unfoldable pub parse_integer : Bytes → ℕ → Option (ℤ × ℕ)
unfolding find_crlf whole_number
parse_integer v from = elim (find_crlf v from) [
  | none ↦ none
  | some crlf ↦ whole_number (from_chars (take (crlf - from) (drop from v))) (crlf + 2)
]
