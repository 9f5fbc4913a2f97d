-- ===== src/Net/Reactor.antt =====
-- The state of src/net/EpollReactor.hpp, and what src/net/EpollReactor.cpp does to its table of
-- connections. What the system calls return is an argument. Of epoll, the interest list is modelled:
-- EPOLL_CTL_ADD fails on a descriptor that it has, and EPOLL_CTL_MOD on one that it has not; the code
-- prints a message and goes on.
use redis_cpp.Base.{
  ℕ, ◌+◌, ◌%◌, Bool, true, false, not, ◌||◌, ◌&&◌, Option, none, some, List, [], ◌∷◌, ◌++◌, Bytes,
  leb, ◌==◌, if◌then◌else◌,
}
use redis_cpp.Resp.Parser.{Outcome, returns, throws}
use redis_cpp.Pool.Queue.{ThreadPool, enqueue}
use redis_cpp.Net.Connection.{
  Connection, make_connection, ReadEnd, handle_read, command_complete, send_enqueue, Written,
  FlushEnd, sent_all, more_pending, fatal, flush,
}
use redis_cpp.Net.Table.{lookup, put, erase}

-- A set of event flags, as `epoll_ctl` takes it.
pub record Interest : Type 0 where
  pub epollin : Bool
  pub epollout : Bool
  pub epollet : Bool
  pub epollrdhup : Bool

-- EPOLLIN | EPOLLET | EPOLLRDHUP, and the same with EPOLLOUT
abbrev pub reading : Interest
reading = record { epollin = true; epollout = false; epollet = true; epollrdhup = true }

abbrev pub reading_and_writing : Interest
reading_and_writing = record { epollin = true; epollout = true; epollet = true; epollrdhup = true }

pub record PendingWrite : Type 0 where
  pub fd : ℕ
  pub gen : ℕ
  pub bytes : Bytes

pub record CommandComplete : Type 0 where
  pub fd : ℕ
  pub gen : ℕ

-- What dispatch_next_command captures for the thread pool.
pub record Task : Type 0 where
  pub fd : ℕ
  pub gen : ℕ
  pub args : List Bytes

pub record Reactor : Type 0 where
  pub conns : List (ℕ × Connection)
  pub interests : List (ℕ × Interest)
  pub pending_writes : List PendingWrite
  pub completed_commands : List CommandComplete
  pub pool : ThreadPool Task
  pub gen_counter : ℕ
  pub running : Bool

-- Bytes that the kernel has taken for a connection.
pub record Sent : Type 0 where
  pub fd : ℕ
  pub gen : ℕ
  pub bytes : Bytes

-- The constructor, with the descriptors of the listen socket and of the pipe's end.
unfoldable pub make_reactor : ℕ → ℕ → ThreadPool Task → Reactor
make_reactor listen_fd stop_fd pool = record {
  conns = [];
  interests =
      (listen_fd, record { epollin = true; epollout = false; epollet = true; epollrdhup = false })
      ∷ (stop_fd, record { epollin = true; epollout = false; epollet = false; epollrdhup = false })
      ∷ [];
  pending_writes = [];
  completed_commands = [];
  pool = pool;
  gen_counter = 0;
  running = false;
}

unfoldable pub epoll_add : ℕ → Interest → List (ℕ × Interest) → List (ℕ × Interest)
epoll_add fd events m = elim (lookup fd m) [ none ↦ put fd events m | some _ ↦ m ]

unfoldable pub epoll_mod : ℕ → Interest → List (ℕ × Interest) → List (ℕ × Interest)
epoll_mod fd events m = elim (lookup fd m) [ none ↦ m | some _ ↦ put fd events m ]

unfoldable pub epoll_del : ℕ → List (ℕ × Interest) → List (ℕ × Interest)
epoll_del fd m = erase fd m

unfoldable pub handle_close : ℕ → Reactor → Reactor
unfolding epoll_del
handle_close fd r = elim (lookup fd r.conns) [
  | none ↦ r
  | some _ ↦ record r { conns = erase fd r.conns; interests = epoll_del fd r.interests }
]

-- One round of the loop of handle_accept, for a descriptor that accept4 has returned.
unfoldable pub accept_one : ℕ → ℕ → Reactor → Reactor
unfolding epoll_add
accept_one now fd r =
    let gen = (r.gen_counter + 1) % 18446744073709551616 in
    record r {
      conns = put fd (make_connection fd gen now) r.conns;
      interests = epoll_add fd reading r.interests;
      gen_counter = gen;
    }

unfoldable pub handle_accept : ℕ → List ℕ → Reactor → Reactor
unfolding accept_one
handle_accept now [] r = r
handle_accept now (fd ∷ fds) r = handle_accept now fds (accept_one now fd r)

-- The connection as it is now, in its place.
abbrev pub store_conn : ℕ → Connection → Reactor → Reactor
store_conn fd c r = record r { conns = put fd c r.conns }

abbrev pub with_pool : Reactor → Outcome (ThreadPool Task) → Outcome Reactor
with_pool r (returns p) = returns (record r { pool = p })
with_pool r throws = throws

-- `pool_.enqueue` in dispatch_next_command, if there is a command
unfoldable pub submit : Connection → Option (List Bytes) → Reactor → Outcome Reactor
submit c none r = returns r
submit c (some args) r =
    with_pool r (enqueue (record { fd = c.fd; gen = c.generation; args = args }) r.pool)

-- One round of the loop of process_completed_commands.
unfoldable pub complete_one : CommandComplete → Reactor → Outcome Reactor
unfolding submit
complete_one n r = elim (lookup n.fd r.conns) [
  | none ↦ returns r
  | some c ↦
      if not c.alive || not (c.generation == n.gen)
      then returns r
      else submit c (command_complete c).1 (store_conn n.fd (command_complete c).0 r)
]

unfoldable pub complete_all : List CommandComplete → Reactor → Outcome Reactor
complete_all [] r = returns r
complete_all (n ∷ ns) r = elim (complete_one n r) [
  | throws ↦ throws
  | returns s ↦ complete_all ns s
]

unfoldable pub process_completed_commands : Reactor → Outcome Reactor
unfolding complete_all
process_completed_commands r =
    complete_all r.completed_commands (record r { completed_commands = [] })

-- What handle_read does with the reactor, once it has the connection's outcome.
unfoldable pub after_read :
    ℕ → Connection → Reactor → Outcome (Option Connection × Option (List Bytes)) → Outcome Reactor
unfolding submit handle_close
after_read fd c r throws = throws
after_read fd c r (returns (none, task)) = returns (handle_close fd r)
after_read fd c r (returns (some d, task)) = submit d task (store_conn fd d r)

module _ (can_reserve : ℕ → Bool) (max_recv_bytes : ℕ) where
  unfoldable pub handle_read_fd : ℕ → List Bytes → ReadEnd → ℕ → Reactor → Outcome Reactor
  unfolding after_read
  handle_read_fd now chunks end fd r = elim (lookup fd r.conns) [
    | none ↦ returns r
    | some c ↦ after_read fd c r (handle_read can_reserve max_recv_bytes now chunks end c)
  ]

-- What handle_write does, by the end of flush.
unfoldable pub after_flush : ℕ → Connection → FlushEnd → Reactor → Reactor
unfolding handle_close epoll_mod
after_flush fd c sent_all r = record (store_conn fd c r) {
  interests = epoll_mod fd reading r.interests;
}
after_flush fd c more_pending r = store_conn fd c r
after_flush fd c fatal r = handle_close fd (store_conn fd c r)

unfoldable pub handle_write : (ℕ → Written) → ℕ → Reactor → Reactor × List Sent
unfolding after_flush
handle_write kernel fd r = elim (lookup fd r.conns) [
  | none ↦ (r, [])
  | some c ↦
      if not c.alive
      then (r, [])
      else (let (d, end, taken) = flush kernel c in
          (after_flush fd d end r, record { fd = fd; gen = c.generation; bytes = taken } ∷ []))
]

-- What process_pending_writes does, by the end of flush.
unfoldable pub after_reply : ℕ → Connection → FlushEnd → Reactor → Reactor
unfolding handle_close epoll_mod
after_reply fd c sent_all r = store_conn fd c r
after_reply fd c more_pending r = record (store_conn fd c r) {
  interests = epoll_mod fd reading_and_writing r.interests;
}
after_reply fd c fatal r = handle_close fd (store_conn fd c r)

-- One round of the loop of process_pending_writes. `has_memory` says whether the reply could be
-- appended to the send buffer.
unfoldable pub write_one : (ℕ → Written) → Bool → PendingWrite → Reactor → Reactor × List Sent
unfolding after_reply
write_one kernel has_memory w r = elim (lookup w.fd r.conns) [
  | none ↦ (r, [])
  | some c ↦
      if not c.alive || not (c.generation == w.gen) || not has_memory
      then (r, [])
      else (let (d, end, taken) = flush kernel (send_enqueue w.bytes c) in
          (after_reply w.fd d end r, record { fd = w.fd; gen = w.gen; bytes = taken } ∷ []))
]

unfoldable pub write_all :
    (ℕ → ℕ → Written) → (ℕ → Bool) → ℕ → List PendingWrite → Reactor → Reactor × List Sent
unfolding write_one
write_all kernel has_memory i [] r = (r, [])
write_all kernel has_memory i (w ∷ ws) r =
    let (s, out) = write_one (kernel i) (has_memory i) w r in
    let (t, out') = write_all kernel has_memory (i + 1) ws s in (t, out ++ out')

unfoldable pub process_pending_writes :
    (ℕ → ℕ → Written) → (ℕ → Bool) → Reactor → Reactor × List Sent
unfolding write_all
process_pending_writes kernel has_memory r =
    write_all kernel has_memory 0 r.pending_writes (record r { pending_writes = [] })

-- The descriptors that check_idle collects. The times are seconds; the difference of the
-- code may be negative, so its second operand is brought to the other side.
unfoldable pub idle_fds : ℕ → ℕ → List (ℕ × Connection) → List ℕ
idle_fds now idle_timeout_s [] = []
idle_fds now idle_timeout_s ((fd, c) ∷ m) =
    let rest = idle_fds now idle_timeout_s m in
    if c.alive && leb (c.last_active + idle_timeout_s) now then fd ∷ rest else rest

unfoldable pub close_all : List ℕ → Reactor → Reactor
unfolding handle_close
close_all [] r = r
close_all (fd ∷ fds) r = close_all fds (handle_close fd r)

unfoldable pub check_idle : ℕ → ℕ → Reactor → Reactor
unfolding idle_fds close_all
check_idle now idle_timeout_s r = close_all (idle_fds now idle_timeout_s r.conns) r

-- What the workers call: `send` and `notify_command_complete`, apart from the byte that wakes the
-- reactor.
unfoldable pub send : ℕ → ℕ → Bytes → Reactor → Reactor
send fd gen bytes r = record r {
  pending_writes = r.pending_writes ++ record { fd = fd; gen = gen; bytes = bytes } ∷ [];
}

unfoldable pub notify_command_complete : ℕ → ℕ → Reactor → Reactor
notify_command_complete fd gen r = record r {
  completed_commands = r.completed_commands ++ record { fd = fd; gen = gen } ∷ [];
}
