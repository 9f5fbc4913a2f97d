-- ===== src/Resp/Tests.antt =====
-- Runs of the encoders and of the parser on small inputs, and the theorems of the parser at inputs
-- that meet their hypotheses.
use redis_cpp.Base.{
  ◌≡◌, ◌≢◌, ◌⊎◌, leb, refl, sym, ◌∙◌, ℕ, Bool, true, List, [], ◌∷◌, ◌++◌, Bytes, codes, negsuc, map,
  ◌+◌, toupper, arith, length,
}
use redis_cpp.Decimal.{to_string, from_chars}
use redis_cpp.Resp.Encode.{bulk_string, array, integer, crlf}
use redis_cpp.Resp.Scan.{parse_integer}
use redis_cpp.Resp.Quoting.{Piece, bare, in_quotes, line_of, AllBlank, IsPiece, AllApart}
use redis_cpp.Resp.InlineLine.{parse_inline-line_of}
use redis_cpp.Resp.Inline.{is_blank, line_end, tokens, push_command}
use redis_cpp.Resp.Parser.{
  parse_inline, parse_multibulk, multibulk_body, read_args, read_arg, complete, incomplete, Parsed,
  returns, throws, parse,
}
use redis_cpp.Resp.Tokens.{tokens_enough}
use redis_cpp.Resp.Progress.{Refused, Reports, parse-answers}
use redis_cpp.Resp.RoundTrip.{parse-array}
use redis_cpp.Resp.Prefix.{parse_multibulk-append, parse-piece}

abbrev always : ℕ → Bool
always _ = true

bulk_hello : bulk_string (codes "hello") ≡ codes "$5\r\nhello\r\n"
unfolding bulk_string to_string
bulk_hello = refl

integer_negative : integer (negsuc 1) ≡ codes ":-2\r\n"
unfolding integer to_string
integer_negative = refl

abbrev get_a : List Bytes
get_a = codes "GET" ∷ codes "a" ∷ []

abbrev get_a_text : Bytes
get_a_text = codes "*2\r\n$3\r\nGET\r\n$1\r\na\r\n"

array-get_a : array get_a ≡ get_a_text
unfolding array bulk_string to_string
array-get_a = refl

abbrev got_a : Parsed
got_a = record { result = complete; cmds = get_a ∷ []; consumed = 20 }

parse_get_a : parse always (get_a_text ++ codes "*1") [] 0 ≡ returns got_a
unfolding parse parse_multibulk multibulk_body read_args read_arg parse_integer from_chars
parse_get_a = refl

parse_quoted :
    parse always (codes "set  \"a b\" x\\\r\n") [] 0
    ≡ returns (record {
      result = complete;
      cmds = (codes "SET" ∷ codes "a b" ∷ codes "x\\" ∷ []) ∷ [];
      consumed = 15;
    })
unfolding parse parse_inline line_end tokens push_command toupper
parse_quoted = refl

parse-array_example :
    parse always (array get_a ++ codes "*1") [] 0
    ≡ returns (record { result = complete; cmds = get_a ∷ []; consumed = length (array get_a) })
unfolding array bulk_string to_string
parse-array_example =
    parse-array always (codes "GET") (codes "a" ∷ []) (codes "*1") [] 0 (omega arith) refl

parse-piece_example :
    parse always (codes "*2\r\n$3\r\nGET\r\n$1\r\n") [] 0
    ≡ returns (record { result = incomplete; cmds = []; consumed = 0 })
unfolding array bulk_string to_string
parse-piece_example =
    parse-piece always (codes "GET") (codes "a" ∷ []) [] 0 (codes "*2\r\n$3\r\nGET\r\n$1\r\n")
      (codes "a\r\n") refl (λ e. cc) (omega arith) refl

-- A whole request, and the beginning of the next.
parse_multibulk_get_a : parse_multibulk always get_a_text [] 0 ≡ returns got_a
unfolding parse_multibulk multibulk_body read_args read_arg parse_integer from_chars
parse_multibulk_get_a = refl

parse_multibulk-append_example :
    parse_multibulk always (get_a_text ++ codes "*1") [] 0 ≡ parse_multibulk always get_a_text [] 0
parse_multibulk-append_example =
    parse_multibulk-append always get_a_text (codes "*1") [] 0 (omega arith) finished
  where
    finished :
        (r : Parsed) → parse_multibulk always get_a_text [] 0 ≡ returns r → r.result ≢ incomplete
    finished r p q = let e : returns got_a ≡ returns r = sym parse_multibulk_get_a ∙ p in absurd cc

-- Up to max_size() of a vector of strings of 32 bytes.
abbrev within_max_size : ℕ → Bool
within_max_size n = leb n 288230376151711743

abbrev too_many : Bytes
too_many = codes "*9223372036854775807\r\n"

parse-answers_example :
    ((parse within_max_size too_many [] 0 ≡ throws) × Refused within_max_size too_many)
    ⊎ ((r : Parsed) × (parse within_max_size too_many [] 0 ≡ returns r)
        × (¬ Refused within_max_size too_many)
        × Reports too_many 1 [] 0 r)
parse-answers_example = parse-answers within_max_size [] 0 too_many (omega arith)

tokens_enough_example : tokens 5 [] (codes "a \"b") ≡ tokens 9 [] (codes "a \"b")
tokens_enough_example = tokens_enough 5 9 [] (codes "a \"b") (omega arith) (omega arith)

-- set "a\"b \n" v
abbrev set_pieces : List (Bytes × Piece)
set_pieces = (codes " ", in_quotes (codes "a\"b " ++ 10 ∷ [])) ∷ (codes "  ", bare b'v' []) ∷ []

set_pieces-AllApart : AllApart set_pieces
unfolding is_blank
set_pieces-AllApart = ground arith

parse_inline-line_of_example :
    parse_inline
      (line_of (([], bare b's' (codes "et")) ∷ set_pieces) (codes " ") ++ (crlf ++ codes "PING"))
      []
      0
    ≡ record {
      result = complete;
      cmds = (map toupper (codes "set") ∷ (codes "a\"b " ++ 10 ∷ []) ∷ codes "v" ∷ []) ∷ [];
      consumed = length (line_of (([], bare b's' (codes "et")) ∷ set_pieces) (codes " ")) + 2;
    }
parse_inline-line_of_example =
    parse_inline-line_of [] (bare b's' (codes "et")) set_pieces (codes " ") (codes "PING") [] 0 tt
      set_bare set_pieces-AllApart one_blank
  where
    set_bare : IsPiece (bare b's' (codes "et"))
    set_bare = unfold is_blank in ground arith

    one_blank : AllBlank (codes " ")
    one_blank = unfold is_blank in ground arith
