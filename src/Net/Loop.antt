-- ===== src/Net/Loop.antt =====
-- The event loop of src/net/EpollReactor.cpp (`run`): the events that one `epoll_wait` returns, and
-- what follows them.
use redis_cpp.Base.{
  ℕ, ◌-◌, Bool, true, false, ◌||◌, ◌&&◌, List, [], ◌∷◌, ◌++◌, Bytes, ltb, leb, ◌==◌, if◌then◌else◌,
}
use redis_cpp.Resp.Parser.{Outcome, returns, throws}
use redis_cpp.Net.Connection.{ReadEnd, Written}
use redis_cpp.Net.Reactor.{
  Reactor, Sent, handle_accept, handle_read_fd, handle_close, handle_write, process_pending_writes,
  process_completed_commands, check_idle,
}

-- The fields of ReactorConfig that the loop reads, and the two descriptors that are not connections.
pub record Config : Type 0 where
  pub idle_timeout_s : ℕ
  pub max_recv_bytes : ℕ
  pub listen_fd : ℕ
  pub stop_fd : ℕ

-- What a call of ::read on the pipe returns: bytes, or the end of the loop of reads (EAGAIN, an end of
-- file or an error), or EINTR.
pub data PipeRead : Type 0 where
  got : List ℕ → PipeRead
  no_more interrupted : PipeRead

-- What the system calls return while one event is handled: the reads from the pipe, the
-- descriptors that accept4 returned, the time, the chunks that the connection's socket yielded, and
-- how the kernel took bytes (`kernel i` in the i-th pending write).
pub record Answers : Type 0 where
  pub pipe_reads : List PipeRead
  pub accepted : List ℕ
  pub now : ℕ
  pub chunks : List Bytes
  pub read_end : ReadEnd
  pub written : ℕ → Written
  pub kernel : ℕ → ℕ → Written
  pub has_memory : ℕ → Bool

-- An event: its descriptor, and its flags (EPOLLERR, EPOLLHUP or EPOLLRDHUP; EPOLLIN; EPOLLOUT).
pub record Ready : Type 0 where
  pub fd : ℕ
  pub is_error : Bool
  pub is_read : Bool
  pub is_write : Bool
  pub answers : Answers

-- The reactor, and what has been sent.
abbrev pub State : Type 0
State = Reactor × List Sent

abbrev pub with_sent : List Sent → State → State
with_sent out (r, out') = (r, out ++ out')

-- `process_pending_writes(); process_completed_commands();`
unfoldable pub drain_queues : Answers → State → Outcome State
drain_queues a (r, out) =
    let (s, out') = process_pending_writes a.kernel a.has_memory r in
    elim (process_completed_commands s) [ throws ↦ throws | returns t ↦ returns (t, out ++ out') ]

-- Whether the bytes of one read have that of `stop()`.
unfoldable pub has_stop : List ℕ → Bool
has_stop [] = false
has_stop (b ∷ bs) = (b == b'S') || has_stop bs

-- The loop of reads: `stop_loop` at its end.
unfoldable pub read_pipe : List PipeRead → Bool
unfolding has_stop
read_pipe [] = false
read_pipe (got bs ∷ rs) = has_stop bs || read_pipe rs
read_pipe (no_more ∷ rs) = false
read_pipe (interrupted ∷ rs) = read_pipe rs

-- `if (is_write) handle_write(fd);`
unfoldable pub write_if : Ready → State → State
write_if e (r, out) =
    let (s, out') = handle_write e.answers.written e.fd r in
    let written : State = (s, out ++ out') in if e.is_write then written else (r, out)

module _ (can_reserve : ℕ → Bool) (cfg : Config) where
  -- An event on a connection's socket.
  unfoldable pub handle_socket : Ready → State → Outcome State
  unfolding write_if
  handle_socket e (r, out) =
      if e.is_error
      then returns (handle_close e.fd r, out)
      else if e.is_read
      then (elim (handle_read_fd can_reserve cfg.max_recv_bytes e.answers.now e.answers.chunks
          e.answers.read_end e.fd r) [
            | throws ↦ throws
            | returns s ↦ returns (write_if e (s, out))
          ])
      else returns (write_if e (r, out))

  -- One event; the flag says that the loop over the events is left.
  unfoldable pub handle_event : Ready → State → Outcome (State × Bool)
  unfolding drain_queues read_pipe handle_socket
  handle_event e (r, out) =
      if e.fd == cfg.stop_fd
      then (elim (drain_queues e.answers (r, out)) [
        | throws ↦ throws
        | returns (s, out') ↦
            if read_pipe e.answers.pipe_reads
            then returns ((record s { running = false }, out'), true)
            else returns ((s, out'), false)
      ])
      else if e.fd == cfg.listen_fd
      then returns ((handle_accept e.answers.now e.answers.accepted r, out), false)
      else (elim (handle_socket e (r, out)) [ throws ↦ throws | returns t ↦ returns (t, false) ])

  unfoldable pub handle_events : List Ready → State → Outcome State
  handle_events [] s = returns s
  handle_events (e ∷ es) s = elim (handle_event e s) [
    | throws ↦ throws
    | returns (t, true) ↦ returns t
    | returns (t, false) ↦ handle_events es t
  ]

  abbrev check_idle_if : Bool → ℕ → State → State
  check_idle_if b now (r, out) = if b then (check_idle now cfg.idle_timeout_s r, out) else (r, out)

  -- One round of the loop of run, behind epoll_wait, with what the calls at its end return and the
  -- time of the last idle scan. The new time of that scan is the third part.
  unfoldable pub iteration : List Ready → Answers → ℕ → State → Outcome (State × ℕ)
  unfolding handle_events
  iteration events a last_idle_check s = elim (handle_events events s) [
    | throws ↦ throws
    | returns t ↦ (elim (drain_queues a t) [
      | throws ↦ throws
      | returns u ↦
          (let due = ltb 0 cfg.idle_timeout_s && leb 1 (a.now - last_idle_check) in
            returns (check_idle_if due a.now u, if due then a.now else last_idle_check))
    ])
  ]
