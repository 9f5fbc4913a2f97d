-- ===== src/Net/InOrderTests.antt =====
-- Two replies behind one that is half sent, to a kernel that takes little.
use redis_cpp.Base.{ℕ, zero, suc, ◌≡◌, refl, true, some, [], ◌∷◌, ◌++◌, codes, arith}
use redis_cpp.Pool.Queue.{new_pool}
use redis_cpp.Net.Connection.{
  Connection, Written, wrote, would_block, flush, flush_loop, flush_end, send_enqueue,
}
use redis_cpp.Net.Sending.{unsent}
use redis_cpp.Net.Table.{lookup, put}
use redis_cpp.Net.Reactor.{
  Reactor, make_reactor, after_reply, write_one, write_all, process_pending_writes,
}
use redis_cpp.Net.Delivered.{sent_to, replies_to}
use redis_cpp.Net.InOrder.{process_pending_writes-in_order}

-- Two bytes, then no more.
abbrev slow : ℕ → ℕ → Written
slow i zero = wrote 2
slow i (suc _) = would_block

abbrev before : Connection
before = record {
  fd = 7;
  generation = 1;
  alive = true;
  last_active = 0;
  recv_buf = [];
  send_buf = codes "+OK";
  send_offset = 1;
  command_queue = [];
  processing = true;
}

abbrev behind : Connection
behind = record before { send_buf = codes "+OK:1:2"; send_offset = 5 }

abbrev waiting : Reactor
waiting = record (make_reactor 3 4 new_pool) {
  conns = (7, before) ∷ [];
  pending_writes =
      record { fd = 7; gen = 1; bytes = codes ":1" }
      ∷ record { fd = 7; gen = 9; bytes = codes "no" }
      ∷ record { fd = 7; gen = 1; bytes = codes ":2" }
      ∷ [];
}

waiting-left : lookup 7 (process_pending_writes slow (λ _. true) waiting).0.conns ≡ some behind
unfolding process_pending_writes write_all write_one after_reply flush flush_loop flush_end
    send_enqueue lookup put
waiting-left = refl

process_pending_writes-in_order_example :
    sent_to 7 1 (process_pending_writes slow (λ _. true) waiting).1 ++ unsent behind
    ≡ unsent before ++ replies_to 7 1 waiting.pending_writes
unfolding lookup
process_pending_writes-in_order_example =
    process_pending_writes-in_order slow waiting 7 before behind refl refl (omega arith)
      waiting-left
