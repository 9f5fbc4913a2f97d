-- ===== src/Resp/Inline.antt =====
-- Tokens of an inline command, from src/protocol/RespParser.cpp (`parse_inline`): blanks separate
-- them, and a double-quoted token may hold blanks and escapes.
use redis_cpp.Base.{
  ℕ, zero, suc, ◌+◌, ◌-◌, Bool, ◌&&◌, ◌||◌, Option, none, some, List, [], ◌∷◌, ◌++◌, map, Bytes,
  ltb, ◌==◌, if◌then◌else◌, get_or, toupper,
}
use redis_cpp.Resp.Scan.{find_crlf, find_byte}

unfoldable pub is_blank : ℕ → Bool
is_blank c = (c == b' ') || (c == 9)

unfoldable pub skip_blanks : Bytes → Bytes
unfolding is_blank
skip_blanks [] = []
skip_blanks (c ∷ s) = let rest = skip_blanks s in if is_blank c then rest else c ∷ s

-- The byte that a backslash and `c` stand for in a quoted token.
unfoldable pub escape : ℕ → ℕ
escape c = if c == b'n' then 10 else if c == b'r' then 13 else if c == b't' then 9 else c

-- What follows an opening quote: the token, and the text behind the closing quote (if there is one).
unfoldable mutual
  unfolding escape

  pub quoted : Bytes → Bytes → Bytes × Bytes
  quoted token [] = (token, [])
  quoted token (c ∷ s) =
      let closed : Bytes × Bytes = (token, s) in
      let escaped = after_backslash token s in
      let plain = quoted (token ++ c ∷ []) s in
      if c == b'"' then closed else if c == 92 then escaped else plain

  pub after_backslash : Bytes → Bytes → Bytes × Bytes
  after_backslash token [] = (token ++ 92 ∷ [], [])
  after_backslash token (c ∷ s) = quoted (token ++ escape c ∷ []) s

-- A token up to the next blank.
unfoldable pub plain : Bytes → Bytes → Bytes × Bytes
unfolding is_blank
plain token [] = (token, [])
plain token (c ∷ s) =
    let rest = plain (token ++ c ∷ []) s in if is_blank c then (token, c ∷ s) else rest

-- One token of a line that begins with no blank.
unfoldable pub next_token : ℕ → Bytes → Bytes × Bytes
unfolding quoted plain
next_token c s = if c == b'"' then quoted [] s else plain [] (c ∷ s)

-- The loop over the line. Each round takes at least one byte, so the length is fuel enough.
unfoldable pub tokens : ℕ → List Bytes → Bytes → List Bytes
unfolding skip_blanks next_token
tokens zero args s = args
tokens (suc f) args s = elim (skip_blanks s) [
  | [] ↦ args
  | c ∷ r ↦ let t = next_token c r in tokens f (args ++ t.0 ∷ []) t.1
]

-- Where the line ends, and where the next one begins, from the first "\r\n" of the data and its first
-- '\n'.
unfoldable pub end_of_line : Bytes → Option ℕ → Option ℕ → Option (ℕ × ℕ)
end_of_line v (some crlf) lf = some (crlf, crlf + 2)
end_of_line v none none = none
end_of_line v none (some lf) =
    some (if ltb 0 lf && (get_or v (lf - 1) 0 == 13) then lf - 1 else lf, lf + 1)

unfoldable pub line_end : Bytes → Option (ℕ × ℕ)
unfolding find_crlf find_byte end_of_line
line_end v = end_of_line v (find_crlf v 0) (find_byte 10 0 v)

-- `out.push_back(args)` where there are arguments, the command's name in upper case.
unfoldable pub push_command : List (List Bytes) → List Bytes → List (List Bytes)
push_command out [] = out
push_command out (name ∷ args) = out ++ (map toupper name ∷ args) ∷ []
