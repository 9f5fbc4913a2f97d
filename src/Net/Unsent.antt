-- ===== src/Net/Unsent.antt =====
-- What the steps of one connection leave of its unsent bytes.
use redis_cpp.Base.{
  ℕ, zero, suc, ◌-◌, ◌≡◌, refl, sym, ap, ◌∙◌, Bool, false, Option, some, List, [], ◌∷◌, ◌++◌, Bytes,
  length, length-drop, arith,
}
use redis_cpp.Resp.Parser.{returns}
use redis_cpp.Net.Connection.{
  Connection, ReadEnd, take_chunks, dispatch_front, dispatch_next_command, dispatch_if_idle,
  parse_and_queue, handle_read, command_complete, Written, sent_all, flush_loop, flush_end, flush,
}
use redis_cpp.Net.Sending.{unsent}

dispatch_front-unsent :
    (c : Connection) (q : List (List Bytes)) → unsent (dispatch_front c q).0 ≡ unsent c
unfolding dispatch_front
dispatch_front-unsent c [] = refl
dispatch_front-unsent c (args ∷ q) = refl

pub command_complete-unsent : (c : Connection) → unsent (command_complete c).0 ≡ unsent c
unfolding command_complete dispatch_next_command
command_complete-unsent c = dispatch_front-unsent (record c { processing = false }) c.command_queue

dispatch_if_idle-unsent : (c : Connection) → unsent (dispatch_if_idle c).0 ≡ unsent c
unfolding dispatch_if_idle dispatch_next_command
dispatch_if_idle-unsent c = grind (arith, dispatch_front-unsent)

take_chunks-unsent :
    (most now : ℕ) (bs : List Bytes) (c d : Connection)
    → take_chunks most now bs c ≡ some d
    → unsent d ≡ unsent c
unfolding take_chunks
take_chunks-unsent most now [] c d e = grind arith
take_chunks-unsent most now (b ∷ bs) c d e = grind (
  arith,
  take_chunks-unsent most now bs (record c { recv_buf = c.recv_buf ++ b; last_active = now }) d,
)

parse_and_queue-unsent :
    (can_reserve : ℕ → Bool) (most : ℕ) (c d : Connection) (task : Option (List Bytes))
    → parse_and_queue can_reserve most c ≡ returns (some d, task)
    → unsent d ≡ unsent c
unfolding parse_and_queue
parse_and_queue-unsent can_reserve most c d task e = grind (arith, dispatch_if_idle-unsent)

pub handle_read-unsent :
    (can_reserve : ℕ → Bool) (most now : ℕ) (chunks : List Bytes) (end : ReadEnd) (c d : Connection)
    (task : Option (List Bytes))
    → handle_read can_reserve most now chunks end c ≡ returns (some d, task)
    → unsent d ≡ unsent c
unfolding handle_read
handle_read-unsent can_reserve most now chunks end c d task e =
    grind (arith, parse_and_queue-unsent can_reserve most, take_chunks-unsent most now chunks)

-- flush has nothing to do where nothing is unsent.
pub flush-nothing :
    (kernel : ℕ → Written) (c : Connection) → unsent c ≡ [] → (flush kernel c).1 ≡ sent_all
unfolding flush flush_loop flush_end
flush-nothing kernel c e =
    by_rest (length c.send_buf - c.send_offset)
      (sym (length-drop c.send_offset c.send_buf) ∙ ap length e)
  where
    by_rest :
        (n : ℕ)
        → n ≡ 0
        → (flush_end c (flush_loop kernel n 0 c.send_buf c.send_offset [])).1 ≡ sent_all
    by_rest zero z = refl
    by_rest (suc n) z = absurd (omega arith)
