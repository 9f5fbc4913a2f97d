-- ===== src/Aof/Records.antt =====
-- What the writer logs is what replay calls: every record is read back, for all keys and values.
use redis_cpp.Base.{
  ℕ, ◌<◌, ◌≡◌, refl, ap, ◌∙◌, Bool, true, false, some, List, [], ◌∷◌, ◌++◌, Bytes, codes, ℤ, pos,
  ltb, ◌==◌, arith, length, length-append, append_assoc, append-nil, take-append_length,
  drop-append_length,
}
use redis_cpp.Decimal.{to_string_ℕ, to_string, stoll, stoi, is_digit}
use redis_cpp.Decimal.RoundTrip.{AllDigits, to_string_ℕ-AllDigits, stoll-to_string}
use redis_cpp.Aof.Writer.{bulk}
use redis_cpp.Aof.Replay.{
  Stream, cut_line, read_line, strip_cr, got, read_text, bulk_header, read_bulk, read_bulks,
  record_body, record_header, read_record,
}

not_newline : (c : ℕ) → is_digit c ≡ true → (c == 10) ≡ false
unfolding is_digit
not_newline c h = ground arith

cut_line_digits :
    (line s rest : Bytes)
    → AllDigits s
    → cut_line line (s ++ (codes "\r\n" ++ rest)) ≡ (line ++ (s ++ 13 ∷ []), some rest)
unfolding cut_line
cut_line_digits line [] rest h = refl
cut_line_digits line (c ∷ s) rest h =
    rw (not_newline c h.0)
      (cut_line_digits (line ++ c ∷ []) s rest h.1 ∙ ap (λ l. (l, some rest)) (simp append_assoc))

strip_cr-append : (s : Bytes) → strip_cr (s ++ 13 ∷ []) ≡ s
unfolding strip_cr
strip_cr-append [] = refl
strip_cr-append (c ∷ []) = refl
strip_cr-append (c ∷ d ∷ s) = ap (λ t. c ∷ t) (strip_cr-append (d ∷ s))

-- The line that begins an argument.
header_line :
    (n : ℕ) (rest : Bytes)
    → read_line (some (b'$' ∷ (to_string (pos n) ++ (codes "\r\n" ++ rest))))
      ≡ some ((b'$' ∷ to_string (pos n)) ++ 13 ∷ [], some rest)
unfolding read_line to_string
header_line n rest =
    ap some (cut_line_digits (b'$' ∷ []) (to_string_ℕ n) rest (to_string_ℕ-AllDigits n))

-- Arguments one behind the other, as the writer prints them.
unfoldable pub bulks : List Bytes → Bytes
bulks [] = []
bulks (a ∷ items) = bulk a ++ bulks items

module _ (can_reserve can_resize : ℕ → Bool) where
  read_text_there :
      (a rest : Bytes)
      → can_resize (length a) ≡ true
      → read_text can_reserve can_resize (pos (length a)) (some (a ++ (codes "\r\n" ++ rest)))
        ≡ got a (some rest)
  unfolding read_text
  read_text_there a rest h =
      let enough : ltb (length (a ++ (codes "\r\n" ++ rest))) (length a) ≡ false =
        ground (arith, length-append a (codes "\r\n" ++ rest)) in
      rw
        (
          h,
          enough,
          take-append_length a (codes "\r\n" ++ rest),
          drop-append_length a (codes "\r\n" ++ rest),
        )
        refl

  read_bulk-line :
      (st rest : Stream) (line : Bytes)
      → read_line st ≡ some (line, rest)
      → read_bulk can_reserve can_resize st
        ≡ bulk_header can_reserve can_resize (strip_cr line) rest
  unfolding read_bulk
  read_bulk-line st rest line e = rw (e, read_bulk) refl

  bulk_header-stoll :
      (digits : Bytes) (len : ℤ) (st : Stream)
      → stoll digits ≡ some len
      → bulk_header can_reserve can_resize (b'$' ∷ digits) st
        ≡ read_text can_reserve can_resize len st
  unfolding bulk_header
  bulk_header-stoll digits len st e = rw (e, bulk_header) refl

  -- An argument that `bulk` prints is read back.
  read_bulk-bulk :
      (a rest : Bytes)
      → length a < 9223372036854775808
      → can_resize (length a) ≡ true
      → read_bulk can_reserve can_resize (some (bulk a ++ rest)) ≡ got a (some rest)
  read_bulk-bulk a rest small h =
      ap (λ d. read_bulk can_reserve can_resize (some d)) shape
      ∙ read_bulk-line _ _ _ (header_line (length a) (a ++ (codes "\r\n" ++ rest)))
      ∙ ap (λ l. bulk_header can_reserve can_resize l (some (a ++ (codes "\r\n" ++ rest))))
          (strip_cr-append (b'$' ∷ to_string (pos (length a))))
      ∙ bulk_header-stoll (to_string (pos (length a))) (pos (length a)) _
          (stoll-to_string (pos (length a)) small)
      ∙ read_text_there a rest h
    where
      shape :
          bulk a ++ rest
          ≡ b'$' ∷ (to_string (pos (length a)) ++ (codes "\r\n" ++ (a ++ (codes "\r\n" ++ rest))))
      shape = unfold bulk in simp append_assoc

  -- What a record may hold: texts whose length is an int64_t and that get their memory.
  abbrev pub Fits : List Bytes → Type 0
  Fits [] = Unit {0}
  Fits (a ∷ items) = (length a < 9223372036854775808) × (can_resize (length a) ≡ true) × Fits items

  read_bulks-bulks :
      (items args : List Bytes) (rest : Bytes)
      → Fits items
      → read_bulks can_reserve can_resize (length items) args (some (bulks items ++ rest))
        ≡ got (args ++ items) (some rest)
  unfolding read_bulks bulks
  read_bulks-bulks [] args rest f = simp append-nil
  read_bulks-bulks (a ∷ items) args rest f =
      rw (append_assoc, read_bulk-bulk a (bulks items ++ rest) f.0 f.1, read_bulks)
        (read_bulks-bulks items (args ++ a ∷ []) rest f.2 ∙ simp append_assoc)

  read_record-line :
      (st rest : Stream) (line : Bytes)
      → read_line st ≡ some (line, rest)
      → read_record can_reserve can_resize st
        ≡ record_header can_reserve can_resize (strip_cr line) rest
  unfolding read_record
  read_record-line st rest line e = rw (e, read_record) refl

  record_header-args :
      (digits a : Bytes) (items : List Bytes) (n : ℕ) (st rest : Stream)
      → stoi digits ≡ some (pos n)
      → can_reserve n ≡ true
      → read_bulks can_reserve can_resize n [] st ≡ got (a ∷ items) rest
      → record_header can_reserve can_resize (b'*' ∷ digits) st ≡ got (a ∷ items) rest
  unfolding record_header record_body
  record_header-args digits a items n st rest e h b = rw (e, record_header) (rw h (rw b refl))

  -- A record with a one-digit count.
  pub read_record-bulks :
      (c : ℕ) (a : Bytes) (items : List Bytes) (rest : Bytes)
      → is_digit c ≡ true
      → stoi (c ∷ []) ≡ some (pos (length (a ∷ items)))
      → can_reserve (length (a ∷ items)) ≡ true
      → Fits (a ∷ items)
      → read_record can_reserve can_resize (some (b'*' ∷ c ∷ 13 ∷ 10 ∷ (bulks (a ∷ items) ++ rest)))
        ≡ got (a ∷ items) (some rest)
  unfolding strip_cr
  read_record-bulks c a items rest d e h f =
      read_record-line _ _ _ first
      ∙ record_header-args (c ∷ []) a items (length (a ∷ items)) _ (some rest) e h
          (read_bulks-bulks (a ∷ items) [] rest f)
    where
      first :
          read_line (some (b'*' ∷ c ∷ 13 ∷ 10 ∷ (bulks (a ∷ items) ++ rest)))
          ≡ some (b'*' ∷ c ∷ 13 ∷ [], some (bulks (a ∷ items) ++ rest))
      first = unfold read_line in ap some (cut_line_digits (b'*' ∷ []) (c ∷ []) _ (d, tt))
