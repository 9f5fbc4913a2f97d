-- ===== src/Resp/InlineLine.antt =====
-- parse_inline of src/protocol/RespParser.cpp reads back a line of bare and quoted pieces.
use redis_cpp.Base.{
  ℕ, ◌+◌, ◌≤◌, ◌<◌, ◌≡◌, refl, ap, ◌∙◌, false, some, List, [], ◌∷◌, ◌++◌, map, Bytes, ◌==◌, arith,
  length, length-append, take-append_length, toupper,
}
use redis_cpp.Resp.Encode.{crlf}
use redis_cpp.Resp.Scan.{crlf_from}
use redis_cpp.Resp.Inline.{is_blank, line_end, push_command}
use redis_cpp.Resp.Parser.{complete, parse_inline}
use redis_cpp.Resp.Quoting.{
  Piece, bare, in_quotes, hide, hide_all, written, value, line_of, values, AllBlank, AllBare,
  IsPiece, AllApart, tokens-line_of,
}

-- No byte of a line is a '\r'.
abbrev NoCr : Bytes → Type 0
NoCr [] = Unit {0}
NoCr (c ∷ s) = ((c == 13) ≡ false) × NoCr s

NoCr-append : (s t : Bytes) → NoCr s → NoCr t → NoCr (s ++ t)
NoCr-append [] t h k = k
NoCr-append (c ∷ s) t h k = (h.0, NoCr-append s t h.1 k)

blank-NoCr : (b : Bytes) → AllBlank b → NoCr b
unfolding is_blank
blank-NoCr [] h = tt
blank-NoCr (c ∷ b) h = (ground (arith, h.0), blank-NoCr b h.1)

bare-NoCr : (s : Bytes) → AllBare s → NoCr s
bare-NoCr [] h = tt
bare-NoCr (c ∷ s) h = (h.1, bare-NoCr s h.2)

hide-NoCr : (c : ℕ) → NoCr (hide c)
unfolding hide
hide-NoCr c = ground arith

hide_all-NoCr : (s : Bytes) → NoCr (hide_all s)
unfolding hide_all
hide_all-NoCr [] = tt
hide_all-NoCr (c ∷ s) = NoCr-append (hide c) (hide_all s) (hide-NoCr c) (hide_all-NoCr s)

written-NoCr : (p : Piece) → IsPiece p → NoCr (written p)
unfolding written
written-NoCr (bare c s) h = bare-NoCr (c ∷ s) h.1
written-NoCr (in_quotes s) h =
    (refl, NoCr-append (hide_all s) (b'"' ∷ []) (hide_all-NoCr s) (refl, tt))

line_of-NoCr :
    (b : Bytes) (p : Piece) (ps : List (Bytes × Piece)) (trailing : Bytes)
    → AllBlank b
    → IsPiece p
    → AllApart ps
    → AllBlank trailing
    → NoCr (line_of ((b, p) ∷ ps) trailing)
unfolding line_of
line_of-NoCr b p [] trailing hb hp h t =
    NoCr-append b _ (blank-NoCr b hb)
      (NoCr-append (written p) trailing (written-NoCr p hp) (blank-NoCr trailing t))
line_of-NoCr b p ((b', p') ∷ ps) trailing hb hp h t =
    NoCr-append b _ (blank-NoCr b hb)
      (NoCr-append (written p) _ (written-NoCr p hp) (line_of-NoCr b' p' ps trailing h.1 h.2 h.3 t))

crlf_from-line :
    (i : ℕ) (s rest : Bytes) → NoCr s → crlf_from i (s ++ (crlf ++ rest)) ≡ some (i + length s)
unfolding crlf_from
crlf_from-line i [] rest h = ap some (omega arith)
crlf_from-line i (c ∷ []) rest h =
    rw h.0 (crlf_from-line (i + 1) [] rest tt ∙ ap some (omega arith))
crlf_from-line i (c ∷ d ∷ s) rest h =
    rw h.0 (crlf_from-line (i + 1) (d ∷ s) rest h.1 ∙ ap some (omega arith))

line_end-crlf :
    (s rest : Bytes) → NoCr s → line_end (s ++ (crlf ++ rest)) ≡ some (length s, length s + 2)
unfolding line_end
line_end-crlf s rest h =
    let start : 0 + length s ≡ length s = omega arith in
    rw (crlf_from-line 0 s rest h ∙ ap some start) refl

length-written : (p : Piece) → 0 < length (written p)
unfolding written
length-written (bare c s) = omega arith
length-written (in_quotes s) = omega arith

length-line_of :
    (ps : List (Bytes × Piece)) (trailing : Bytes) → length ps ≤ length (line_of ps trailing)
unfolding line_of
length-line_of [] trailing = omega arith
length-line_of ((b, p) ∷ ps) trailing = omega (
  arith,
  length-append b (written p ++ line_of ps trailing),
  length-append (written p) (line_of ps trailing),
  length-written p,
  length-line_of ps trailing,
)

-- A line of one or more pieces, with blanks before and behind it and at least one blank between
-- two pieces, is parsed COMPLETE with any bytes behind its line end: one command is appended, the
-- values of its pieces with the first in upper case, and exactly the line and its end are
-- consumed. A piece is any bytes in quotes, with the quote, the backslash, '\n', '\r' and '\t'
-- escaped, or at least one byte without a blank or '\r' that does not begin with a quote.
pub parse_inline-line_of :
    (b : Bytes) (p : Piece) (ps : List (Bytes × Piece)) (trailing rest : Bytes)
    (out : List (List Bytes)) (consumed : ℕ)
    → AllBlank b
    → IsPiece p
    → AllApart ps
    → AllBlank trailing
    → parse_inline (line_of ((b, p) ∷ ps) trailing ++ (crlf ++ rest)) out consumed ≡ record {
      result = complete;
      cmds = out ++ (map toupper (value p) ∷ values ps) ∷ [];
      consumed = length (line_of ((b, p) ∷ ps) trailing) + 2;
    }
unfolding parse_inline
parse_inline-line_of b p ps trailing rest out consumed hb hp h t =
    let line = line_of ((b, p) ∷ ps) trailing in
    rw (line_end-crlf line rest (line_of-NoCr b p ps trailing hb hp h t), parse_inline)
      (rw
        (
          take-append_length line (crlf ++ rest),
          tokens-line_of (length line) [] b p ps trailing (length-line_of ((b, p) ∷ ps) trailing) hb
              hp h t,
        )
        (unfold push_command in refl))
