-- ===== src/Resp/RoundTrip.antt =====
-- A request that `RespParser::array` encodes is parsed back, whatever follows it in the buffer.
use redis_cpp.Base.{
  ℕ, ◌+◌, ◌≤◌, ◌<◌, ◌≡◌, refl, ap, subst, ◌∙◌, Bool, true, false, some, List, [], ◌∷◌, ◌++◌, Bytes,
  pos, ltb, leb, arith, take, drop, get_or, length, length-append, append_assoc,
  get_or-append_length, take-append_length, drop-append_length, append-nil,
}
use redis_cpp.Decimal.{to_string}
use redis_cpp.Resp.Encode.{crlf, bulk_string, bulk_strings, array}
use redis_cpp.Resp.Scan.{parse_integer}
use redis_cpp.Resp.Lines.{parse_integer-to_string}
use redis_cpp.Resp.Rounds.{Fits, take_arg-Fits}
use redis_cpp.Resp.Parser.{complete, returns, arg, read_arg, read_args, parse_multibulk, parse}
use redis_cpp.Resp.Steps.{parse_star, parse_multibulk-some, multibulk_body-reserved}

length-bulk_string :
    (a : Bytes) → length (bulk_string a) ≡ length (to_string (pos (length a))) + length a + 5
unfolding bulk_string
length-bulk_string a =
    let text = to_string (pos (length a)) in
    omega (arith, length-append text (crlf ++ (a ++ crlf)), length-append a crlf)

-- One encoded argument at the position `length before`.
module _ (before a rest : Bytes) where
  header : Bytes
  header = to_string (pos (length a))

  pub data_with : Bytes
  data_with = before ++ (bulk_string a ++ rest)

  at_header : data_with ≡ (before ++ b'$' ∷ []) ++ (header ++ (crlf ++ (a ++ (crlf ++ rest))))
  unfolding bulk_string data_with header
  at_header = simp append_assoc

  at_text : data_with ≡ (before ++ b'$' ∷ (header ++ crlf)) ++ (a ++ (crlf ++ rest))
  unfolding bulk_string data_with header
  at_text = simp append_assoc

  length-data_with : length data_with ≡ length before + length header + length a + 5 + length rest
  unfolding data_with header
  length-data_with = omega (
    arith,
    length-append before (bulk_string a ++ rest),
    length-append (bulk_string a) rest,
    length-bulk_string a,
  )

  length_at_text :
      length (before ++ b'$' ∷ (header ++ crlf)) ≡ length before + 1 + length header + 2
  length_at_text =
      omega (arith, length-append before (b'$' ∷ (header ++ crlf)), length-append header crlf)

  header_read :
      Fits data_with
      → parse_integer data_with (length before + 1)
        ≡ some (pos (length a), length before + 1 + length header + 2)
  header_read f =
      rw (at_header, ← length_dollar)
        (unfold header in
          parse_integer-to_string (before ++ b'$' ∷ []) (a ++ (crlf ++ rest)) (length a)
            (omega (arith, length-data_with)))
    where
      length_dollar : length (before ++ b'$' ∷ []) ≡ length before + 1
      length_dollar = length-append before (b'$' ∷ [])

  dollar_there : get_or data_with (length before) 0 ≡ b'$'
  unfolding data_with bulk_string
  dollar_there = get_or-append_length before b'$' _ 0

  text_there : take (length a) (drop (length before + 1 + length header + 2) data_with) ≡ a
  text_there =
      rw (← length_at_text, at_text, drop-append_length (before ++ b'$' ∷ (header ++ crlf)))
        (take-append_length a (crlf ++ rest))

  next_there :
      length (before ++ bulk_string a) ≡ length before + 1 + length header + 2 + length a + 2
  unfolding header
  next_there = omega (arith, length-append before (bulk_string a), length-bulk_string a)

  pub read_arg-bulk_string :
      Fits data_with → read_arg data_with (length before) ≡ arg a (length (before ++ bulk_string a))
  unfolding read_arg
  read_arg-bulk_string f =
      let after = length before + 1 + length header + 2 in
      let inside : leb (length data_with) (length before) ≡ false =
        ground (arith, length-data_with) in
      let enough : ltb (length data_with) (after + length a + 2) ≡ false =
        ground (arith, length-data_with) in
      rw (inside, dollar_there, header_read f, read_arg)
        (take_arg-Fits data_with (length a) after (omega (arith, length-data_with))
            (omega (arith, length-data_with)) f
          ∙ rw (enough, text_there, next_there) refl)

read_args-bulk_strings :
    (items : List Bytes) (v before rest : Bytes) (args : List Bytes) (out : List (List Bytes))
    (consumed : ℕ)
    → v ≡ before ++ (bulk_strings items ++ rest)
    → Fits v
    → read_args v (length items) (length before) args out consumed ≡ record {
      result = complete;
      cmds = out ++ (args ++ items) ∷ [];
      consumed = length (before ++ bulk_strings items);
    }
unfolding read_args bulk_strings
read_args-bulk_strings [] v before rest args out consumed e f = simp append-nil
read_args-bulk_strings (a ∷ items) v before rest args out consumed e f =
    rw (step, read_args)
      (read_args-bulk_strings items v (before ++ bulk_string a) rest (args ++ a ∷ []) out consumed
          (e ∙ simp append_assoc) f
        ∙ simp append_assoc)
  where
    parts : v ≡ data_with before a (bulk_strings items ++ rest)
    parts = e ∙ (unfold data_with in simp append_assoc)

    step : read_arg v (length before) ≡ arg a (length (before ++ bulk_string a))
    step =
        rw parts (read_arg-bulk_string before a (bulk_strings items ++ rest) (subst Fits parts f))

length-bulk_strings_ge : (items : List Bytes) → length items ≤ length (bulk_strings items)
unfolding bulk_strings
length-bulk_strings_ge [] = omega arith
length-bulk_strings_ge (a ∷ items) = omega (
  arith,
  length-append (bulk_string a) (bulk_strings items),
  length-bulk_string a,
  length-bulk_strings_ge items,
)

-- The first line of an encoded request.
first_line : List Bytes → Bytes
first_line items = b'*' ∷ (to_string (pos (length items)) ++ crlf)

array-first_line :
    (items : List Bytes) (rest : Bytes)
    → array items ++ rest ≡ first_line items ++ (bulk_strings items ++ rest)
unfolding array first_line
array-first_line items rest = simp append_assoc

few_items :
    (items : List Bytes) (rest : Bytes)
    → Fits (array items ++ rest)
    → length items < 9223372036854775808
unfolding array
few_items items rest f = omega (
  arith,
  length-append (array items) rest,
  length-append (to_string (pos (length items))) (crlf ++ bulk_strings items),
  length-bulk_strings_ge items,
)

count_read :
    (items : List Bytes) (rest : Bytes)
    → Fits (array items ++ rest)
    → parse_integer (array items ++ rest) 1 ≡ some (pos (length items), length (first_line items))
count_read items rest f = rw array-first_line (
    ap (λ v. parse_integer v 1) split
    ∙ parse_integer-to_string (b'*' ∷ []) (bulk_strings items ++ rest) (length items)
        (few_items items rest f)
    ∙ ap (λ k. some (pos (length items), k)) length_line)
  where
    split :
        first_line items ++ (bulk_strings items ++ rest)
        ≡ (b'*' ∷ []) ++ (to_string (pos (length items)) ++ (crlf ++ (bulk_strings items ++ rest)))
    split = unfold first_line in simp append_assoc

    length_line : 1 + length (to_string (pos (length items))) + 2 ≡ length (first_line items)
    length_line =
        unfold first_line in omega (arith, length-append (to_string (pos (length items))) crlf)

module _ (can_reserve : ℕ → Bool) where
  -- Parsing what array prints for a request with at least one argument, with any bytes behind it,
  -- gives COMPLETE, appends that request, and consumes exactly its bytes, if the vector can be
  -- reserved and the data is shorter than 2^62 bytes.
  pub parse-array :
      (item : Bytes) (items : List Bytes) (rest : Bytes) (out : List (List Bytes)) (consumed : ℕ)
      → Fits (array (item ∷ items) ++ rest)
      → can_reserve (length (item ∷ items)) ≡ true
      → parse can_reserve (array (item ∷ items) ++ rest) out consumed
        ≡ returns (record {
          result = complete;
          cmds = out ++ (item ∷ items) ∷ [];
          consumed = length (array (item ∷ items));
        })
  parse-array item items rest out consumed f r =
      start
      ∙ parse_multibulk-some can_reserve out consumed v (pos (length all), length (first_line all))
          (count_read all rest f)
      ∙ multibulk_body-reserved can_reserve out consumed v (length items) (length (first_line all))
          r
      ∙ ap returns (
          read_args-bulk_strings all v (first_line all) rest [] out consumed
            (array-first_line all rest) f
          ∙ ap (λ k. record { result = complete; cmds = out ++ all ∷ []; consumed = k }) whole)
    where
      all : List Bytes
      all = item ∷ items

      v : Bytes
      v = array all ++ rest

      start : parse can_reserve v out consumed ≡ parse_multibulk can_reserve v out consumed
      start = unfold array in parse_star can_reserve out consumed b'*' _ refl

      whole : length (first_line all ++ bulk_strings all) ≡ length (array all)
      whole = ap length (unfold array first_line in simp append_assoc)
