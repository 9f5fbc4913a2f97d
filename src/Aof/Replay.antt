-- ===== src/Aof/Replay.antt =====
-- `AofWriter::replay` (src/store/AofWriter.cpp). The input stream is `some` of what is left while it
-- is good, and `none` once a read has hit the end of the file or failed. `can_reserve` and
-- `can_resize` say whether the vector and the string of a record get their memory; where they do
-- not, the exception leaves replay.
use redis_cpp.Base.{
  ℕ, zero, suc, ◌+◌, ◌-◌, Bool, not, Option, none, some, List, [], ◌∷◌, ◌++◌, Bytes, bytes_eq,
  codes, ℤ, pos, negsuc, ltb_ℤ, ltb, ◌==◌, if◌then◌else◌, length, take, drop,
}
use redis_cpp.Decimal.{stoll, stoi}
use redis_cpp.Resp.Parser.{Outcome, returns, throws}

abbrev pub Stream : Type 0
Stream = Option Bytes

-- The bytes before the next '\n', and the stream behind it.
unfoldable pub cut_line : Bytes → Bytes → Bytes × Stream
cut_line line [] = (line, none)
cut_line line (c ∷ s) =
    let ended : Bytes × Stream = (line, some s) in
    let rest = cut_line (line ++ c ∷ []) s in if c == 10 then ended else rest

-- std::getline; `none` is a failure.
unfoldable pub read_line : Stream → Option (Bytes × Stream)
unfolding cut_line
read_line none = none
read_line (some []) = none
read_line (some (c ∷ s)) = some (cut_line [] (c ∷ s))

unfoldable pub strip_cr : Bytes → Bytes
strip_cr [] = []
strip_cr (c ∷ []) = if c == 13 then [] else c ∷ []
strip_cr (c ∷ d ∷ s) = c ∷ strip_cr (d ∷ s)

-- The line that ends an argument; that it may be missing is not noticed.
unfoldable pub skip_line : Stream → Stream
unfolding read_line
skip_line st = elim (read_line st) [ none ↦ none | some (line, rest) ↦ rest ]

-- What a read reports: a value and the stream behind it, the result false, or an exception.
pub data Read {ℓ} (A : Type ℓ) : Type ℓ where
  got : A → Stream → Read A
  failed : Read A
  thrown : Read A

-- The callbacks that replay makes.
pub data Call : Type 0 where
  set_call : Bytes → Bytes → Call
  set_ex_call : Bytes → Bytes → ℤ → Call
  del_call : Bytes → Call
  expire_call : Bytes → ℤ → Call

-- A deadline that stoll cannot read counts as 0, and only a positive one makes a call.
unfoldable pub with_deadline : Bytes → (ℤ → Call) → Option Call
with_deadline text call = elim (stoll text) [
  | none ↦ none
  | some t ↦ if ltb_ℤ (pos 0) t then some (call t) else none
]

set_of : List Bytes → Option Call
unfolding with_deadline
set_of (key ∷ value ∷ []) = some (set_call key value)
set_of (key ∷ value ∷ opt ∷ at_ms ∷ []) =
    if bytes_eq opt (codes "PXAT") then with_deadline at_ms (set_ex_call key value) else none
set_of _ = none

del_of : List Bytes → Option Call
del_of (key ∷ []) = some (del_call key)
del_of _ = none

expire_of : List Bytes → Option Call
unfolding with_deadline
expire_of (key ∷ at_ms ∷ []) = with_deadline at_ms (expire_call key)
expire_of _ = none

-- The dispatch on a record's arguments.
unfoldable pub call_of : List Bytes → Option Call
unfolding set_of del_of expire_of
call_of [] = none
call_of (cmd ∷ args) =
    if bytes_eq cmd (codes "SET")
    then set_of args
    else if bytes_eq cmd (codes "DEL")
    then del_of args
    else if bytes_eq cmd (codes "PEXPIREAT")
    then expire_of args
    else none

module _ (can_reserve can_resize : ℕ → Bool) where
  -- f.read of `len` bytes, and the line end behind them
  unfoldable pub read_text : ℤ → Stream → Read Bytes
  unfolding skip_line
  read_text (negsuc _) st = got [] st
  read_text (pos len) none = if can_resize len then failed else thrown
  read_text (pos len) (some s) =
      if not (can_resize len)
      then thrown
      else if ltb (length s) len
      then failed
      else got (take len s) (skip_line (some (drop len s)))

  unfoldable pub bulk_header : Bytes → Stream → Read Bytes
  bulk_header [] st = failed
  bulk_header (c ∷ digits) st =
      if not (c == b'$')
      then failed
      else (elim (stoll digits) [ none ↦ failed | some len ↦ read_text len st ])

  unfoldable pub read_bulk : Stream → Read Bytes
  read_bulk st = elim (read_line st) [
    | none ↦ failed
    | some (line, rest) ↦ bulk_header (strip_cr line) rest
  ]

  -- The loop over the arguments of a record.
  unfoldable pub read_bulks : ℕ → List Bytes → Stream → Read (List Bytes)
  read_bulks zero args st = got args st
  read_bulks (suc n) args st = elim (read_bulk st) [
    | got a rest ↦ read_bulks n (args ++ a ∷ []) rest
    | failed ↦ failed
    | thrown ↦ thrown
  ]

  unfoldable pub record_body : ℤ → Stream → Read (List Bytes)
  record_body (negsuc n) st = if can_reserve (18446744073709551615 - n) then got [] st else thrown
  record_body (pos n) st = if can_reserve n then read_bulks n [] st else thrown

  -- One round of the outer loop up to its dispatch. An empty line is `got []`, which dispatches
  -- nothing; a record with no argument ends the loop.
  unfoldable pub record_header : Bytes → Stream → Read (List Bytes)
  record_header [] st = got [] st
  record_header (c ∷ digits) st = if not (c == b'*') then failed else (elim (stoi digits) [
    | none ↦ failed
    | some n ↦ (elim (record_body n st) [
      | got (a ∷ args) rest ↦ got (a ∷ args) rest
      | got [] rest ↦ failed
      | failed ↦ failed
      | thrown ↦ thrown
    ])
  ])

  unfoldable pub read_record : Stream → Read (List Bytes)
  read_record st = elim (read_line st) [
    | none ↦ failed
    | some (line, rest) ↦ record_header (strip_cr line) rest
  ]

  module _ {S : Type 0} (call : Call → S → S) where
    -- The outer loop, over a state that the callbacks change, with the count of calls. Each round
    -- takes a line, so the file's length is fuel enough.
    unfoldable pub replay_loop : ℕ → Stream → S → ℕ → Outcome (S × ℕ)
    replay_loop zero st s count = returns (s, count)
    replay_loop (suc fuel) st s count = elim (read_record st) [
      | failed ↦ returns (s, count)
      | thrown ↦ throws
      | got args rest ↦ (elim (call_of args) [
        | none ↦ replay_loop fuel rest s count
        | some c ↦ replay_loop fuel rest (call c s) (count + 1)
      ])
    ]

    -- `opened` is the file's bytes, or `none` if it cannot be opened.
    unfoldable pub replay : Option Bytes → S → Outcome (S × ℕ)
    replay none s = returns (s, 0)
    replay (some file) s = replay_loop (length file) (some file) s 0
