-- ===== src/Net/Tests.antt =====
-- Requests that reach a connection in pieces, and replies that the kernel takes in pieces.
use redis_cpp.Base.{
  ◌≡◌, ◌≢◌, ◌≤◌, length, drop, ◌⊎◌, refl, ℕ, zero, suc, Bool, true, false, List, [], ◌∷◌, ◌++◌,
  Bytes, codes, arith, some,
}
use redis_cpp.Decimal.{to_string, from_chars}
use redis_cpp.Resp.Encode.{array, bulk_string}
use redis_cpp.Resp.Scan.{parse_integer}
use redis_cpp.Resp.Parser.{
  returns, throws, parse, parse_multibulk, multibulk_body, read_args, read_arg,
}
use redis_cpp.Resp.Progress.{Refused}
use redis_cpp.Net.Drained.{Stuck, extract_frames_drained}
use redis_cpp.Net.Frames.{Extracted, extract_frames}
use redis_cpp.Net.Connection.{
  Connection, make_connection, send_enqueue, Written, wrote, would_block, sent_all, flush,
}
use redis_cpp.Net.Stream.{requests, AllWhole, Waits, extract_frames-requests}
use redis_cpp.Net.Events.{
  Event, readable, completed, Run, arriving, joined, completions, begin, run_events,
}
use redis_cpp.Net.Orderly.{IsOrderly}
use redis_cpp.Net.Order.{run_events-requests, run_events-all}
use redis_cpp.Net.Sending.{unsent, flush-unsent}

abbrev always : ℕ → Bool
always _ = true

abbrev sent : List (List Bytes)
sent = (codes "GET" ∷ codes "a" ∷ []) ∷ (codes "PING" ∷ []) ∷ []

sent-AllWhole : AllWhole always sent
unfolding array bulk_string to_string
sent-AllWhole = (((λ e. absurd cc), omega arith, refl), (((λ e. absurd cc), omega arith, refl), tt))

sent_text : requests sent ≡ codes "*2\r\n$3\r\nGET\r\n$1\r\na\r\n*1\r\n$4\r\nPING\r\n"
unfolding requests array bulk_string to_string
sent_text = refl

half-Waits : Waits always (codes "*1\r\n$4")
unfolding parse parse_multibulk multibulk_body read_args read_arg parse_integer from_chars
half-Waits out = refl

extract_frames-requests_example :
    extract_frames always (requests sent ++ codes "*1\r\n$4")
    ≡ returns (record { recv_buf = codes "*1\r\n$4"; cmds = sent; alive = true })
unfolding requests array bulk_string to_string
extract_frames-requests_example =
    extract_frames-requests always sent (codes "*1\r\n$4") sent-AllWhole (omega arith) half-Waits

abbrev events : List Event
events =
    readable 1 (codes "*2\r\n$3\r\nGE" ∷ codes "T\r\n$1\r\na\r\n*" ∷ [])
    ∷ completed
    ∷ readable 2 (codes "1\r\n$4\r\nPING\r\n" ∷ [])
    ∷ []

run_events-requests_example :
    (r : Run) × (run_events always 65536 (events) (begin 7 1 0) ≡ returns (some r))
    × IsOrderly always 65536 sent [] 1 r
unfolding requests array bulk_string to_string arriving joined completions
run_events-requests_example =
    run_events-requests always 65536 sent events [] 7 1 0 sent-AllWhole refl (omega arith)
      (omega arith)

run_events-all_example :
    (r : Run) × (run_events always 65536 (events) (begin 7 1 0) ≡ returns (some r))
    × (r.conn.recv_buf ≡ [])
    × (r.dispatched ++ r.conn.command_queue ≡ sent)
    × ((r.conn.processing ≡ true) ⊎ (r.dispatched ≡ sent))
unfolding requests array bulk_string to_string arriving joined
run_events-all_example =
    run_events-all always 65536 sent events 7 1 0 sent-AllWhole refl (omega arith) (omega arith)

-- A kernel that takes three bytes and then no more.
abbrev kernel : ℕ → Written
kernel zero = wrote 3
kernel (suc _) = would_block

abbrev replying : Connection
replying = send_enqueue (codes "+PONG\r\n") (make_connection 7 1 0)

flush-unsent_example :
    ((flush kernel replying).2 ++ unsent (flush kernel replying).0 ≡ unsent replying)
    × (((flush kernel replying).1 ≢ sent_all) ⊎ (unsent (flush kernel replying).0 ≡ []))
flush-unsent_example = flush-unsent kernel replying

-- A request, a blank line, and the start of a request.
abbrev mixed : Bytes
mixed = codes "*1\r\n$4\r\nPING\r\n  \r\nSET a"

extract_frames_drained_example :
    ((extract_frames always mixed ≡ throws)
      × (n : ℕ) × (n ≤ length mixed)
      × Refused always (drop n mixed))
    ⊎ ((e : Extracted) × (n : ℕ) × (extract_frames always mixed ≡ returns e)
        × (n ≤ length mixed)
        × ((e.alive ≡ false) ⊎ ((e.recv_buf ≡ drop n mixed) × Stuck always e.recv_buf e.cmds)))
extract_frames_drained_example = extract_frames_drained always mixed (omega arith)
