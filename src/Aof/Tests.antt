-- ===== src/Aof/Tests.antt =====
-- Logs of a few changes, and the replay of one.
use redis_cpp.Base.{◌≡◌, refl, ℕ, Bool, true, List, [], ◌∷◌, ◌++◌, codes, some, pos, arith, length}
use redis_cpp.Decimal.{to_string}
use redis_cpp.Resp.Parser.{returns}
use redis_cpp.Aof.Writer.{bulk, expire_text}
use redis_cpp.Aof.Replay.{Call, set_call, set_ex_call, del_call, replay}
use redis_cpp.Aof.Torn.{replay-torn}
use redis_cpp.Aof.RoundTrip.{AllLoggable, log_of, run_calls, replay-log_of}

abbrev always : ℕ → Bool
always _ = true

expire_text_k :
    expire_text (codes "k") (pos 12) ≡ codes "*3\r\n$9\r\nPEXPIREAT\r\n$1\r\nk\r\n$2\r\n12\r\n"
unfolding expire_text bulk to_string
expire_text_k = refl

-- A value with the record separator in it, a deadline and a removal.
abbrev changes : List Call
changes =
    set_call (codes "k") (codes "a\r\n*2")
    ∷ set_ex_call (codes "j") (codes "b") (pos 1700000000000)
    ∷ del_call (codes "k")
    ∷ []

changes-AllLoggable : AllLoggable always always changes
unfolding to_string
changes-AllLoggable = ground arith

abbrev collect : Call → List Call → List Call
collect c cs = c ∷ cs

replay-log_of_example :
    replay always always collect (some (log_of changes)) []
    ≡ returns (run_calls always always collect changes [], length changes)
replay-log_of_example = replay-log_of always always collect changes [] changes-AllLoggable

replay-torn_example :
    replay always always collect
      (some (
        log_of (set_call (codes "j") (codes "b") ∷ [])
        ++ b'*' ∷ log_of (set_call (codes "k") (codes "v") ∷ [])))
      []
    ≡ returns (run_calls always always collect (set_call (codes "j") (codes "b") ∷ []) [], 1)
replay-torn_example =
    replay-torn always always collect (set_call (codes "j") (codes "b") ∷ [])
      (set_call (codes "k") (codes "v") ∷ []) [] (ground arith)
