-- ===== src/Net/Connection.antt =====
-- src/net/Connection.hpp, and what src/net/EpollReactor.cpp does to one connection. What the system
-- calls return is an argument. A connection that `handle_close` has taken out of the map is `none`.
use redis_cpp.Base.{
  ℕ, zero, suc, ◌+◌, ◌-◌, Bool, true, false, not, Option, none, some, List, [], ◌∷◌, ◌++◌, Bytes,
  ltb, if◌then◌else◌, length, take, drop,
}
use redis_cpp.Resp.Parser.{Outcome, returns, throws}
use redis_cpp.Net.Frames.{extract_frames}

pub record Connection : Type 0 where
  pub fd : ℕ
  pub generation : ℕ
  pub alive : Bool
  pub last_active : ℕ
  pub recv_buf : Bytes
  pub send_buf : Bytes
  pub send_offset : ℕ
  pub command_queue : List (List Bytes)
  pub processing : Bool

-- The constructor, at the time `now`.
unfoldable pub make_connection : ℕ → ℕ → ℕ → Connection
make_connection fd gen now = record {
  fd = fd;
  generation = gen;
  alive = true;
  last_active = now;
  recv_buf = [];
  send_buf = [];
  send_offset = 0;
  command_queue = [];
  processing = false;
}

-- What ends the loop of reads in handle_read: EAGAIN, or the peer's close or an error.
pub data ReadEnd : Type 0 where
  drained closed : ReadEnd

-- The loop of reads, over the chunks that they return. A read that is interrupted is not among them.
unfoldable pub take_chunks : ℕ → ℕ → List Bytes → Connection → Option Connection
take_chunks max_recv_bytes now [] c = some c
take_chunks max_recv_bytes now (b ∷ bs) c =
    let longer = record c { recv_buf = c.recv_buf ++ b; last_active = now } in
    let rest = take_chunks max_recv_bytes now bs longer in
    if ltb max_recv_bytes (length longer.recv_buf) then none else rest

-- The commands that have arguments go to the end of the queue.
unfoldable pub queue_commands : List (List Bytes) → List (List Bytes) → List (List Bytes)
queue_commands [] queue = queue
queue_commands ([] ∷ cmds) queue = queue_commands cmds queue
queue_commands ((a ∷ args) ∷ cmds) queue = queue_commands cmds (queue ++ (a ∷ args) ∷ [])

-- The command that goes to the thread pool, from the front of the queue.
unfoldable pub dispatch_front : Connection → List (List Bytes) → Connection × Option (List Bytes)
dispatch_front c [] = (c, none)
dispatch_front c (args ∷ queue) = (record c { processing = true; command_queue = queue }, some args)

unfoldable pub dispatch_next_command : Connection → Connection × Option (List Bytes)
unfolding dispatch_front
dispatch_next_command c = dispatch_front c c.command_queue

-- `if (!queue.empty() && !processing) dispatch_next_command`
unfoldable pub dispatch_if_idle : Connection → Connection × Option (List Bytes)
unfolding dispatch_next_command
dispatch_if_idle c = if c.processing then (c, none) else dispatch_next_command c

abbrev pub keep : Connection × Option (List Bytes) → Option Connection × Option (List Bytes)
keep (c, task) = (some c, task)

module _ (can_reserve : ℕ → Bool) (max_recv_bytes : ℕ) where
  -- What handle_read does with the bytes that are in the buffer.
  unfoldable pub parse_and_queue : Connection → Outcome (Option Connection × Option (List Bytes))
  parse_and_queue c = elim (extract_frames can_reserve c.recv_buf) [
    | throws ↦ throws
    | returns e ↦
        if e.alive
        then returns (
            keep (
              dispatch_if_idle (record c {
                recv_buf = e.recv_buf;
                command_queue = queue_commands e.cmds c.command_queue;
              })))
        else returns (none, none)
  ]

  unfoldable pub handle_read :
      ℕ → List Bytes → ReadEnd → Connection → Outcome (Option Connection × Option (List Bytes))
  unfolding parse_and_queue
  handle_read now chunks end c =
      if not c.alive
      then returns (some c, none)
      else (elim (take_chunks max_recv_bytes now chunks c) [
        | none ↦ returns (none, none)
        | some d ↦ (elim end [ closed ↦ returns (none, none) | drained ↦ parse_and_queue d ])
      ])

-- process_completed_commands, for a notice whose generation is the connection's.
unfoldable pub command_complete : Connection → Connection × Option (List Bytes)
unfolding dispatch_next_command
command_complete c = dispatch_next_command (record c { processing = false })

-- Connection::send_enqueue, where there is memory.
unfoldable pub send_enqueue : Bytes → Connection → Connection
send_enqueue bytes c = record c { send_buf = c.send_buf ++ bytes }

-- What `::write` returns: a positive count, EAGAIN, or anything else.
pub data Written : Type 0 where
  wrote : ℕ → Written
  would_block failed : Written

-- The loop of `flush`: how it ends, with 0, 1 or -1, the offset, and the bytes that the kernel has
-- taken. `kernel i` is what the i-th call returns. Each round but the last moves the offset, so what
-- is unsent is fuel enough.
pub data FlushEnd : Type 0 where
  sent_all more_pending fatal : FlushEnd

unfoldable pub flush_loop : (ℕ → Written) → ℕ → ℕ → Bytes → ℕ → Bytes → FlushEnd × ℕ × Bytes
flush_loop kernel zero i buf offset taken = (sent_all, offset, taken)
flush_loop kernel (suc fuel) i buf offset taken =
    if not (ltb offset (length buf)) then (sent_all, offset, taken) else (elim (kernel i) [
      | would_block ↦ (more_pending, offset, taken)
      | failed ↦ (fatal, offset, taken)
      | wrote zero ↦ (fatal, offset, taken)
      | wrote (suc n) ↦
          flush_loop kernel fuel (i + 1) buf (offset + suc n)
            (taken ++ take (suc n) (drop offset buf))
    ])

-- What flush does with the loop's end: only a buffer that is sent is cleared.
unfoldable pub flush_end : Connection → FlushEnd × ℕ × Bytes → Connection × FlushEnd × Bytes
flush_end c (sent_all, offset, taken) =
    (record c { send_buf = []; send_offset = 0 }, sent_all, taken)
flush_end c (more_pending, offset, taken) = (record c { send_offset = offset }, more_pending, taken)
flush_end c (fatal, offset, taken) = (record c { send_offset = offset }, fatal, taken)

unfoldable pub flush : (ℕ → Written) → Connection → Connection × FlushEnd × Bytes
unfolding flush_loop flush_end
flush kernel c =
    flush_end c
      (flush_loop kernel (length c.send_buf - c.send_offset) 0 c.send_buf c.send_offset [])
