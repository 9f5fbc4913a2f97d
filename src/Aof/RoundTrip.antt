-- ===== src/Aof/RoundTrip.antt =====
-- A log that the writer has written is replayed record by record.
use redis_cpp.Base.{
  ℕ, zero, suc, ◌+◌, ◌≤◌, ◌≡◌, refl, sym, ap, ◌∙◌, Bool, true, some, List, [], ◌∷◌, ◌++◌, Bytes,
  bytes_eq, codes, ℤ, pos, InInt64, ltb_ℤ, arith, length, length-append, append_assoc, append-nil,
}
use redis_cpp.Decimal.{to_string, stoi, is_digit}
use redis_cpp.Decimal.RoundTrip.{stoll-to_string}
use redis_cpp.Resp.Parser.{returns}
use redis_cpp.Aof.Writer.{set_text, set_ex_text, del_text, expire_text}
use redis_cpp.Aof.Replay.{
  got, Call, set_call, set_ex_call, del_call, expire_call, with_deadline, call_of, read_record,
  read_line, replay_loop, replay,
}
use redis_cpp.Aof.Records.{Fits, bulks, read_record-bulks}

-- The text that the writer logs for the change that `c` makes again.
unfoldable pub logged_text : Call → Bytes
logged_text (set_call k v) = set_text k v
logged_text (set_ex_call k v t) = set_ex_text k v t
logged_text (del_call k) = del_text k
logged_text (expire_call k t) = expire_text k t

abbrev pub count_digit : Call → ℕ
count_digit (set_call k v) = b'3'
count_digit (set_ex_call k v t) = b'5'
count_digit (del_call k) = b'2'
count_digit (expire_call k t) = b'3'

abbrev pub head_of : Call → Bytes
head_of (set_call k v) = codes "SET"
head_of (set_ex_call k v t) = codes "SET"
head_of (del_call k) = codes "DEL"
head_of (expire_call k t) = codes "PEXPIREAT"

abbrev pub tail_of : Call → List Bytes
tail_of (set_call k v) = k ∷ v ∷ []
tail_of (set_ex_call k v t) = k ∷ v ∷ codes "PXAT" ∷ to_string t ∷ []
tail_of (del_call k) = k ∷ []
tail_of (expire_call k t) = k ∷ to_string t ∷ []

-- A deadline that is logged is an int64_t, and positive: it lies after 1970.
abbrev pub DeadlineFits : Call → Type 0
DeadlineFits (set_call k v) = Unit {0}
DeadlineFits (set_ex_call k v t) = (ltb_ℤ (pos 0) t ≡ true) × InInt64 t
DeadlineFits (del_call k) = Unit {0}
DeadlineFits (expire_call k t) = (ltb_ℤ (pos 0) t ≡ true) × InInt64 t

with_deadline-to_string :
    (t : ℤ) (call : ℤ → Call)
    → ltb_ℤ (pos 0) t ≡ true
    → InInt64 t
    → with_deadline (to_string t) call ≡ some (call t)
unfolding with_deadline
with_deadline-to_string t call p i = rw (stoll-to_string t i, with_deadline) (rw p refl)

call_of-args : (c : Call) → DeadlineFits c → call_of (head_of c ∷ tail_of c) ≡ some c
unfolding call_of bytes_eq
call_of-args (set_call k v) h = refl
call_of-args (set_ex_call k v t) h = with_deadline-to_string t (set_ex_call k v) h.0 h.1
call_of-args (del_call k) h = refl
call_of-args (expire_call k t) h = with_deadline-to_string t (expire_call k) h.0 h.1

pub logged_text-bulks :
    (c : Call) (rest : Bytes)
    → logged_text c ++ rest
      ≡ b'*' ∷ count_digit c ∷ 13 ∷ 10 ∷ (bulks (head_of c ∷ tail_of c) ++ rest)
unfolding logged_text set_text set_ex_text del_text expire_text bulks
logged_text-bulks (set_call k v) rest = simp (append_assoc, append-nil)
logged_text-bulks (set_ex_call k v t) rest = simp (append_assoc, append-nil)
logged_text-bulks (del_call k) rest = simp (append_assoc, append-nil)
logged_text-bulks (expire_call k t) rest = simp (append_assoc, append-nil)

count_digit-is_digit : (c : Call) → is_digit (count_digit c) ≡ true
unfolding is_digit
count_digit-is_digit (set_call k v) = refl
count_digit-is_digit (set_ex_call k v t) = refl
count_digit-is_digit (del_call k) = refl
count_digit-is_digit (expire_call k t) = refl

stoi-count_digit :
    (c : Call) → stoi (count_digit c ∷ []) ≡ some (pos (length (head_of c ∷ tail_of c)))
unfolding stoi
stoi-count_digit (set_call k v) = refl
stoi-count_digit (set_ex_call k v t) = refl
stoi-count_digit (del_call k) = refl
stoi-count_digit (expire_call k t) = refl

-- The log of a sequence of changes.
unfoldable pub log_of : List Call → Bytes
unfolding logged_text
log_of [] = []
log_of (c ∷ cs) = logged_text c ++ log_of cs

pub length-log_of : (cs : List Call) → length cs ≤ length (log_of cs)
unfolding log_of
length-log_of [] = omega arith
length-log_of (c ∷ cs) = omega (
  arith,
  length-append (logged_text c) (log_of cs),
  ap length (sym (append-nil (logged_text c)) ∙ logged_text-bulks c []),
  length-log_of cs,
)

module _ (can_reserve can_resize : ℕ → Bool) where
  -- What a record must be for the log to hold it: its texts and its deadline are in range, and the
  -- memory to read it is there.
  abbrev pub Loggable : Call → Type 0
  Loggable c =
      DeadlineFits c
      × Fits can_reserve can_resize (head_of c ∷ tail_of c)
      × (can_reserve (length (head_of c ∷ tail_of c)) ≡ true)

  abbrev pub AllLoggable : List Call → Type 0
  AllLoggable [] = Unit {0}
  AllLoggable (c ∷ cs) = Loggable c × AllLoggable cs

  read_record-logged_text :
      (c : Call) (rest : Bytes)
      → Loggable c
      → read_record can_reserve can_resize (some (logged_text c ++ rest))
        ≡ got (head_of c ∷ tail_of c) (some rest)
  read_record-logged_text c rest h =
      ap (λ d. read_record can_reserve can_resize (some d)) (logged_text-bulks c rest)
      ∙ read_record-bulks can_reserve can_resize (count_digit c) (head_of c) (tail_of c) rest
          (count_digit-is_digit c) (stoi-count_digit c) h.2 h.1

  module _ {S : Type 0} (call : Call → S → S) where
    -- The calls in order.
    unfoldable pub run_calls : List Call → S → S
    run_calls [] s = s
    run_calls (c ∷ cs) s = run_calls cs (call c s)

    pub replay_loop-record :
        (fuel : ℕ) (c : Call) (rest : Bytes) (s : S) (count : ℕ)
        → Loggable c
        → replay_loop can_reserve can_resize call (suc fuel) (some (logged_text c ++ rest)) s count
          ≡ replay_loop can_reserve can_resize call fuel (some rest) (call c s) (count + 1)
    unfolding replay_loop
    replay_loop-record fuel c rest s count h =
        rw (read_record-logged_text c rest h, replay_loop)
          (rw (call_of-args c h.0, replay_loop) refl)

    replay_loop-empty :
        (fuel : ℕ) (s : S) (count : ℕ)
        → replay_loop can_reserve can_resize call fuel (some []) s count ≡ returns (s, count)
    unfolding replay_loop read_record read_line
    replay_loop-empty zero s count = refl
    replay_loop-empty (suc fuel) s count = refl

    replay_loop-log_of :
        (cs : List Call) (fuel : ℕ) (s : S) (count : ℕ)
        → length cs ≤ fuel
        → AllLoggable cs
        → replay_loop can_reserve can_resize call fuel (some (log_of cs)) s count
          ≡ returns (run_calls cs s, count + length cs)
    unfolding log_of run_calls
    replay_loop-log_of [] fuel s count f h =
        replay_loop-empty fuel s count ∙ ap (λ n. returns (s, n)) (omega arith)
    replay_loop-log_of (c ∷ cs) zero s count f h = absurd (omega arith)
    replay_loop-log_of (c ∷ cs) (suc fuel) s count f h =
        replay_loop-record fuel c (log_of cs) s count h.0
        ∙ replay_loop-log_of cs fuel (call c s) (count + 1) (omega arith) h.1
        ∙ ap (λ n. returns (run_calls cs (call c s), n)) (omega arith)

    -- Replaying the text that the writer logs for a sequence of changes makes exactly those
    -- calls, in order, and counts them, whatever bytes the keys and values hold; every deadline
    -- must be positive and fit an int64_t, every argument's length must fit one too, and the
    -- memory for each record must be there.
    pub replay-log_of :
        (cs : List Call) (s : S)
        → AllLoggable cs
        → replay can_reserve can_resize call (some (log_of cs)) s
          ≡ returns (run_calls cs s, length cs)
    unfolding replay
    replay-log_of cs s h =
        replay_loop-log_of cs (length (log_of cs)) s 0 (length-log_of cs) h
        ∙ ap (λ n. returns (run_calls cs s, n)) (omega arith)
