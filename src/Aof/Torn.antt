-- ===== src/Aof/Torn.antt =====
-- What replay makes of a log that an earlier process has left torn, when the next one has appended to
-- it.
use redis_cpp.Base.{
  ℕ, zero, suc, ◌+◌, ◌≤◌, ◌≡◌, refl, ap, ◌∙◌, Bool, some, List, [], ◌∷◌, ◌++◌, Bytes, arith, length,
  length-append, append_assoc,
}
use redis_cpp.Decimal.{stoi}
use redis_cpp.Resp.Parser.{returns}
use redis_cpp.Aof.Replay.{
  Call, set_call, set_ex_call, del_call, expire_call, failed, read_line, record_header, strip_cr,
  read_record, replay_loop, replay,
}
use redis_cpp.Aof.Records.{bulks}
use redis_cpp.Aof.RoundTrip.{
  log_of, logged_text, logged_text-bulks, length-log_of, replay_loop-record, AllLoggable, run_calls,
  count_digit, head_of, tail_of,
}

module _ (can_reserve can_resize : ℕ → Bool) where
  -- A header line that begins with two asterisks is malformed.
  read_record-two_stars :
      (c : Call) (rest : Bytes)
      → read_record can_reserve can_resize (some (b'*' ∷ b'*' ∷ count_digit c ∷ 13 ∷ 10 ∷ rest))
        ≡ failed
  unfolding read_record read_line stoi record_header strip_cr
  read_record-two_stars (set_call k v) rest = refl
  read_record-two_stars (set_ex_call k v t) rest = refl
  read_record-two_stars (del_call k) rest = refl
  read_record-two_stars (expire_call k t) rest = refl

  read_record-torn :
      (ds : List Call) → read_record can_reserve can_resize (some (b'*' ∷ log_of ds)) ≡ failed
  unfolding log_of
  read_record-torn [] = unfold read_record read_line stoi record_header strip_cr in refl
  read_record-torn (d ∷ ds) =
      ap (λ t. read_record can_reserve can_resize (some (b'*' ∷ t)))
        (logged_text-bulks d (log_of ds))
      ∙ read_record-two_stars d (bulks (head_of d ∷ tail_of d) ++ log_of ds)

  module _ {S : Type 0} (call : Call → S → S) where
    replay_loop-failed :
        (fuel : ℕ) (tail : Bytes) (s : S) (count : ℕ)
        → read_record can_reserve can_resize (some tail) ≡ failed
        → replay_loop can_reserve can_resize call fuel (some tail) s count ≡ returns (s, count)
    unfolding replay_loop
    replay_loop-failed zero tail s count h = refl
    replay_loop-failed (suc fuel) tail s count h = rw (h, replay_loop) refl

    replay_loop-torn :
        (cs : List Call) (tail : Bytes) (fuel : ℕ) (s : S) (count : ℕ)
        → length cs ≤ fuel
        → AllLoggable can_reserve can_resize cs
        → read_record can_reserve can_resize (some tail) ≡ failed
        → replay_loop can_reserve can_resize call fuel (some (log_of cs ++ tail)) s count
          ≡ returns (run_calls can_reserve can_resize call cs s, count + length cs)
    unfolding log_of run_calls
    replay_loop-torn [] tail fuel s count f h e =
        replay_loop-failed fuel tail s count e ∙ ap (λ n. returns (s, n)) (omega arith)
    replay_loop-torn (c ∷ cs) tail zero s count f h e = absurd (omega arith)
    replay_loop-torn (c ∷ cs) tail (suc fuel) s count f h e =
        ap (λ t. replay_loop can_reserve can_resize call (suc fuel) (some t) s count)
          (append_assoc (logged_text c) (log_of cs) tail)
        ∙ replay_loop-record can_reserve can_resize call fuel c (log_of cs ++ tail) s count h.0
        ∙ replay_loop-torn cs tail fuel (call c s) (count + 1) (omega arith) h.1 e
        ∙ ap (λ n. returns (run_calls can_reserve can_resize call cs (call c s), n)) (omega arith)

    -- Take a log that ends in the first byte of a record, behind the whole records of any calls,
    -- and append the records of any further calls to it, as the next process does. Its replay
    -- makes exactly the calls in front of that byte and counts them; whatever was logged behind
    -- it is lost. The records in front must be ones that replay-log_of allows.
    pub replay-torn :
        (cs ds : List Call) (s : S)
        → AllLoggable can_reserve can_resize cs
        → replay can_reserve can_resize call (some (log_of cs ++ b'*' ∷ log_of ds)) s
          ≡ returns (run_calls can_reserve can_resize call cs s, length cs)
    unfolding replay
    replay-torn cs ds s h =
        replay_loop-torn cs (b'*' ∷ log_of ds) (length (log_of cs ++ b'*' ∷ log_of ds)) s 0
          (omega (arith, length-append (log_of cs) (b'*' ∷ log_of ds), length-log_of cs)) h
          (read_record-torn ds)
        ∙ ap (λ n. returns (run_calls can_reserve can_resize call cs s, n)) (omega arith)
