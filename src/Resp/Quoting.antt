-- ===== src/Resp/Quoting.antt =====
-- Lines as a client may write them, and what parse_inline of src/protocol/RespParser.cpp makes of them:
-- pieces between blanks, bare or in double quotes.
use redis_cpp.Base.{
  ℕ, zero, suc, ◌<◌, ◌≡◌, ◌≢◌, refl, sym, ap, ◌∙◌, true, false, List, [], ◌∷◌, ◌++◌, Bytes, ◌==◌,
  if◌then◌else◌, arith, length, append_assoc, append-nil,
}
use redis_cpp.Resp.Inline.{is_blank, skip_blanks, quoted, plain, next_token, tokens}
use redis_cpp.Resp.Tokens.{tokens-step}

-- A piece: a first byte and more without blanks, or any bytes in quotes.
pub data Piece : Type 0 where
  bare : ℕ → Bytes → Piece
  in_quotes : Bytes → Piece

-- How a byte is written in quotes.
unfoldable pub hide : ℕ → Bytes
hide c =
    if c == b'"'
    then 92 ∷ b'"' ∷ []
    else if c == 92
    then 92 ∷ 92 ∷ []
    else if c == 10
    then 92 ∷ b'n' ∷ []
    else if c == 13
    then 92 ∷ b'r' ∷ []
    else if c == 9
    then 92 ∷ b't' ∷ []
    else c ∷ []

unfoldable pub hide_all : Bytes → Bytes
unfolding hide
hide_all [] = []
hide_all (c ∷ s) = hide c ++ hide_all s

unfoldable pub written : Piece → Bytes
unfolding hide_all
written (bare c s) = c ∷ s
written (in_quotes s) = b'"' ∷ (hide_all s ++ b'"' ∷ [])

abbrev pub value : Piece → Bytes
value (bare c s) = c ∷ s
value (in_quotes s) = s

-- Pieces, each with the blanks before it, and the blanks at the end.
unfoldable pub line_of : List (Bytes × Piece) → Bytes → Bytes
unfolding written
line_of [] trailing = trailing
line_of ((b, p) ∷ ps) trailing = b ++ (written p ++ line_of ps trailing)

abbrev pub values : List (Bytes × Piece) → List Bytes
values [] = []
values ((b, p) ∷ ps) = value p ∷ values ps

abbrev pub AllBlank : Bytes → Type 0
AllBlank [] = Unit {0}
AllBlank (c ∷ s) = (is_blank c ≡ true) × AllBlank s

-- Bytes of a bare piece: no blank, and no '\\r'.
abbrev pub AllBare : Bytes → Type 0
AllBare [] = Unit {0}
AllBare (c ∷ s) = (is_blank c ≡ false) × ((c == 13) ≡ false) × AllBare s

abbrev pub IsPiece : Piece → Type 0
IsPiece (bare c s) = ((c == b'"') ≡ false) × AllBare (c ∷ s)
IsPiece (in_quotes s) = Unit {0}

-- Pieces with at least one blank before each.
abbrev pub AllApart : List (Bytes × Piece) → Type 0
AllApart [] = Unit {0}
AllApart ((b, p) ∷ ps) = (b ≢ []) × AllBlank b × IsPiece p × AllApart ps

-- What may follow a bare piece.
abbrev EndsPiece : Bytes → Type 0
EndsPiece [] = Unit {0}
EndsPiece (c ∷ s) = is_blank c ≡ true

quoted-hide :
    (token : Bytes) (c : ℕ) (t : Bytes) → quoted token (hide c ++ t) ≡ quoted (token ++ c ∷ []) t
unfolding quoted hide
quoted-hide token c t = ground arith

quoted_end : (token rest : Bytes) → quoted token (b'"' ∷ rest) ≡ (token, rest)
unfolding quoted
quoted_end token rest = refl

quoted-hide_all :
    (token s rest : Bytes) → quoted token (hide_all s ++ b'"' ∷ rest) ≡ (token ++ s, rest)
unfolding hide_all
quoted-hide_all token [] rest = quoted_end token rest ∙ ap (λ t. (t, rest)) (sym (append-nil token))
quoted-hide_all token (c ∷ s) rest =
    ap (quoted token) (append_assoc (hide c) (hide_all s) (b'"' ∷ rest))
    ∙ quoted-hide token c (hide_all s ++ b'"' ∷ rest)
    ∙ quoted-hide_all (token ++ c ∷ []) s rest
    ∙ ap (λ t. (t, rest)) (append_assoc token (c ∷ []) s)

plain-bare :
    (token s rest : Bytes)
    → AllBare s
    → EndsPiece rest
    → plain token (s ++ rest) ≡ (token ++ s, rest)
unfolding plain
plain-bare token [] [] h e = ap (λ t. (t, [])) (sym (append-nil token))
plain-bare token [] (c ∷ rest) h e = rw e (ap (λ t. (t, c ∷ rest)) (sym (append-nil token)))
plain-bare token (c ∷ s) rest h e = rw h.0 (
    plain-bare (token ++ c ∷ []) s rest h.2 e ∙ ap (λ t. (t, rest)) (append_assoc token (c ∷ []) s))

skip_blanks-blank : (b s : Bytes) → AllBlank b → skip_blanks (b ++ s) ≡ skip_blanks s
unfolding skip_blanks
skip_blanks-blank [] s h = refl
skip_blanks-blank (c ∷ b) s h = rw h.0 (skip_blanks-blank b s h.1)

skip_blanks-text :
    (b : Bytes) (c : ℕ) (s : Bytes)
    → AllBlank b
    → is_blank c ≡ false
    → skip_blanks (b ++ c ∷ s) ≡ c ∷ s
unfolding skip_blanks
skip_blanks-text b c s h e = skip_blanks-blank b (c ∷ s) h ∙ (rw e refl)

next_token-bare :
    (c : ℕ) (s rest : Bytes)
    → IsPiece (bare c s)
    → EndsPiece rest
    → next_token c (s ++ rest) ≡ (c ∷ s, rest)
unfolding next_token
next_token-bare c s rest h e = rw h.0 (plain-bare [] (c ∷ s) rest h.1 e)

next_token-quoted :
    (s rest : Bytes) → next_token b'"' ((hide_all s ++ b'"' ∷ []) ++ rest) ≡ (s, rest)
unfolding next_token
next_token-quoted s rest =
    ap (quoted []) (append_assoc (hide_all s) (b'"' ∷ []) rest) ∙ quoted-hide_all [] s rest

-- One round of the loop, where it finds the token `t`.
tokens-round :
    (fuel : ℕ) (args : List Bytes) (line : Bytes) (c : ℕ) (r t rest : Bytes)
    → skip_blanks line ≡ c ∷ r
    → next_token c r ≡ (t, rest)
    → tokens (suc fuel) args line ≡ tokens fuel (args ++ t ∷ []) rest
tokens-round fuel args line c r t rest e q =
    tokens-step fuel args line c r e
    ∙ ap (λ (o : Bytes × Bytes). tokens fuel (args ++ o.0 ∷ []) o.1) q

tokens-written :
    (fuel : ℕ) (args : List Bytes) (b : Bytes) (p : Piece) (rest : Bytes)
    → AllBlank b
    → IsPiece p
    → EndsPiece rest
    → tokens (suc fuel) args (b ++ (written p ++ rest)) ≡ tokens fuel (args ++ value p ∷ []) rest
unfolding written
tokens-written fuel args b (bare c s) rest hb hp he =
    tokens-round fuel args _ c (s ++ rest) (c ∷ s) rest (skip_blanks-text b c (s ++ rest) hb hp.1.0)
      (next_token-bare c s rest hp he)
tokens-written fuel args b (in_quotes s) rest hb hp he =
    tokens-round fuel args _ b'"' ((hide_all s ++ b'"' ∷ []) ++ rest) s rest
      (skip_blanks-text b b'"' _ hb quote) (next_token-quoted s rest)
  where
    quote : is_blank b'"' ≡ false
    quote = unfold is_blank in refl

ends-line_of :
    (ps : List (Bytes × Piece)) (trailing : Bytes)
    → AllApart ps
    → AllBlank trailing
    → EndsPiece (line_of ps trailing)
unfolding line_of
ends-line_of [] [] h t = tt
ends-line_of [] (c ∷ s) h t = t.0
ends-line_of (([], p) ∷ ps) trailing h t = absurd (h.0 refl)
ends-line_of ((c ∷ b, p) ∷ ps) trailing h t = h.1.0

skip_blanks-all : (b : Bytes) → AllBlank b → skip_blanks b ≡ []
unfolding skip_blanks
skip_blanks-all [] h = refl
skip_blanks-all (c ∷ b) h = rw h.0 (skip_blanks-all b h.1)

tokens-blank : (fuel : ℕ) (args : List Bytes) (b : Bytes) → AllBlank b → tokens fuel args b ≡ args
unfolding tokens
tokens-blank zero args b h = refl
tokens-blank (suc fuel) args b h = rw (skip_blanks-all b h, tokens) refl

pub tokens-line_of :
    (fuel : ℕ) (args : List Bytes) (b : Bytes) (p : Piece) (ps : List (Bytes × Piece))
    (trailing : Bytes)
    → length ps < fuel
    → AllBlank b
    → IsPiece p
    → AllApart ps
    → AllBlank trailing
    → tokens fuel args (line_of ((b, p) ∷ ps) trailing) ≡ args ++ values ((b, p) ∷ ps)
unfolding line_of
tokens-line_of zero args b p ps trailing f hb hp h t = absurd (omega arith)
tokens-line_of (suc fuel) args b p [] trailing f hb hp h t =
    tokens-written fuel args b p trailing hb hp (ends-line_of [] trailing h t)
    ∙ tokens-blank fuel (args ++ value p ∷ []) trailing t
tokens-line_of (suc fuel) args b p ((b', p') ∷ ps) trailing f hb hp h t =
    tokens-written fuel args b p (line_of ((b', p') ∷ ps) trailing) hb hp
      (ends-line_of ((b', p') ∷ ps) trailing h t)
    ∙ tokens-line_of fuel (args ++ value p ∷ []) b' p' ps trailing (omega arith) h.1 h.2 h.3 t
    ∙ append_assoc args (value p ∷ []) (values ((b', p') ∷ ps))
