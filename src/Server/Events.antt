-- ===== src/Server/Events.antt =====
-- What the events of the loop of src/net/EpollReactor.cpp keep, if each of its handlers keeps it.
use redis_cpp.Base.{
  ℕ, zero, suc, ◌+◌, Bool, true, false, List, [], ◌∷◌, ◌++◌, Bytes, ◌==◌, if◌then◌else◌, length,
  subst, arith,
}
use redis_cpp.Resp.Parser.{Outcome, returns, throws}
use redis_cpp.Net.Connection.{ReadEnd, Written}
use redis_cpp.Net.Reactor.{
  Reactor, Sent, accept_one, handle_accept, handle_read_fd, handle_close, handle_write,
  process_pending_writes, process_completed_commands, check_idle,
}
use redis_cpp.Net.Loop.{
  Config, Answers, Ready, State, drain_queues, read_pipe, write_if, handle_socket, handle_event,
}
use redis_cpp.Net.Counts.{Holds}

-- A statement of the reactor that its handlers keep. The number says how many connections may still
-- be accepted.
pub record HandlerLaws (P : ℕ → Reactor → Type 0) : Type 0 where
  pub fewer : (n : ℕ) (r : Reactor) → P (suc n) r → P n r
  pub closes : (n fd : ℕ) (r : Reactor) → P n r → P n (handle_close fd r)
  pub accepts : (n now fd : ℕ) (r : Reactor) → P (suc n) r → P n (accept_one now fd r)
  pub reads :
      (can_reserve : ℕ → Bool) (most now : ℕ) (chunks : List Bytes) (end : ReadEnd) (n fd : ℕ)
      (r : Reactor)
      → P n r
      → Holds (P n) (handle_read_fd can_reserve most now chunks end fd r)
  pub writes :
      (kernel : ℕ → Written) (n fd : ℕ) (r : Reactor) → P n r → P n (handle_write kernel fd r).0
  pub replies :
      (kernel : ℕ → ℕ → Written) (has_memory : ℕ → Bool) (n : ℕ) (r : Reactor)
      → P n r
      → P n (process_pending_writes kernel has_memory r).0
  pub completes : (n : ℕ) (r : Reactor) → P n r → Holds (P n) (process_completed_commands r)
  pub idles :
      (now idle_timeout_s n : ℕ) (r : Reactor) → P n r → P n (check_idle now idle_timeout_s r)
  pub stops : (n : ℕ) (r : Reactor) → P n r → P n (record r { running = false })

module _ (P : ℕ → Reactor → Type 0) (laws : HandlerLaws P) where
  fewer_all : (m n : ℕ) (r : Reactor) → P (m + n) r → P n r
  fewer_all zero n r h = subst (λ x. P x r) (omega arith) h
  fewer_all (suc m) n r h =
      fewer_all m n r (laws.fewer (m + n) r (subst (λ x. P x r) (omega arith) h))

  handle_accept-keeps :
      (now : ℕ) (fds : List ℕ) (n : ℕ) (r : Reactor)
      → P (length fds + n) r
      → P n (handle_accept now fds r)
  unfolding handle_accept
  handle_accept-keeps now [] n r h = subst (λ x. P x r) (omega arith) h
  handle_accept-keeps now (fd ∷ fds) n r h =
      handle_accept-keeps now fds n (accept_one now fd r)
        (laws.accepts (length fds + n) now fd r (subst (λ x. P x r) (omega arith) h))

  pub drain_queues-keeps :
      (a : Answers) (n : ℕ) (st : State)
      → P n st.0
      → Holds (λ (t : State). P n t.0) (drain_queues a st)
  unfolding drain_queues
  drain_queues-keeps a n (r, out) h =
      by_end (process_completed_commands s)
        (laws.completes n s (laws.replies a.kernel a.has_memory n r h))
    where
      s : Reactor
      s = (process_pending_writes a.kernel a.has_memory r).0

      by_end :
          (o : Outcome Reactor)
          → Holds (P n) o
          → Holds
              (λ (t : State). P n t.0)
              (elim o [
                | throws ↦ throws
                | returns t ↦ returns (t, out ++ (process_pending_writes a.kernel a.has_memory r).1)
              ])
      by_end throws k = tt
      by_end (returns t) k = k

  write_if-keeps : (e : Ready) (n : ℕ) (st : State) → P n st.0 → P n (write_if e st).0
  unfolding write_if
  write_if-keeps e n (r, out) h = by_flag e.is_write
    where
      written : State
      written = (
        (handle_write e.answers.written e.fd r).0,
        out ++ (handle_write e.answers.written e.fd r).1,
      )

      by_flag : (b : Bool) → P n (if b then written else (r, out)).0
      by_flag false = h
      by_flag true = laws.writes e.answers.written n e.fd r h

  module _ (can_reserve : ℕ → Bool) (cfg : Config) where
    handle_socket-keeps :
        (e : Ready) (n : ℕ) (st : State)
        → P n st.0
        → Holds (λ (t : State). P n t.0) (handle_socket can_reserve cfg e st)
    unfolding handle_socket
    handle_socket-keeps e n (r, out) h = by_flags e.is_error e.is_read
      where
        read : Outcome Reactor → Outcome State
        read o = elim o [ throws ↦ throws | returns s ↦ returns (write_if e (s, out)) ]

        by_read : (o : Outcome Reactor) → Holds (P n) o → Holds (λ (t : State). P n t.0) (read o)
        by_read throws k = tt
        by_read (returns s) k = write_if-keeps e n (s, out) k

        got : Outcome Reactor
        got =
            handle_read_fd can_reserve cfg.max_recv_bytes e.answers.now e.answers.chunks
              e.answers.read_end e.fd r

        by_flags :
            (is_error is_read : Bool)
            → Holds
                (λ (t : State). P n t.0)
                (if is_error
                  then returns (handle_close e.fd r, out)
                  else if is_read
                  then read got
                  else returns (write_if e (r, out)))
        by_flags true b = laws.closes n e.fd r h
        by_flags false false = write_if-keeps e n (r, out) h
        by_flags false true = by_read got (
            laws.reads can_reserve cfg.max_recv_bytes e.answers.now e.answers.chunks
              e.answers.read_end n e.fd r h)

    pub handle_event-keeps :
        (e : Ready) (n : ℕ) (st : State)
        → P (length e.answers.accepted + n) st.0
        → Holds (λ (t : State × Bool). P n t.0.0) (handle_event can_reserve cfg e st)
    unfolding handle_event
    handle_event-keeps e n (r, out) h = by_fd (e.fd == cfg.stop_fd) (e.fd == cfg.listen_fd)
      where
        still : P n r
        still = fewer_all (length e.answers.accepted) n r h

        on_pipe : Outcome State → Outcome (State × Bool)
        on_pipe o = elim o [
          | throws ↦ throws
          | returns (s, out') ↦
              if read_pipe e.answers.pipe_reads
              then returns ((record s { running = false }, out'), true)
              else returns ((s, out'), false)
        ]

        on_socket : Outcome State → Outcome (State × Bool)
        on_socket o = elim o [ throws ↦ throws | returns t ↦ returns (t, false) ]

        by_stop :
            (s : Reactor) (out' : List Sent)
            → P n s
            → (b : Bool)
            → Holds
                (λ (t : State × Bool). P n t.0.0)
                (if b
                  then returns ((record s { running = false }, out'), true)
                  else returns ((s, out'), false))
        by_stop s out' k true = laws.stops n s k
        by_stop s out' k false = k

        by_pipe :
            (o : Outcome State)
            → Holds (λ (t : State). P n t.0) o
            → Holds (λ (t : State × Bool). P n t.0.0) (on_pipe o)
        by_pipe throws k = tt
        by_pipe (returns (s, out')) k = by_stop s out' k (read_pipe e.answers.pipe_reads)

        by_socket :
            (o : Outcome State)
            → Holds (λ (t : State). P n t.0) o
            → Holds (λ (t : State × Bool). P n t.0.0) (on_socket o)
        by_socket throws k = tt
        by_socket (returns t) k = k

        by_fd :
            (is_stop is_listen : Bool)
            → Holds
                (λ (t : State × Bool). P n t.0.0)
                (if is_stop
                  then on_pipe (drain_queues e.answers (r, out))
                  else if is_listen
                  then returns ((handle_accept e.answers.now e.answers.accepted r, out), false)
                  else on_socket (handle_socket can_reserve cfg e (r, out)))
        by_fd true b =
            by_pipe (drain_queues e.answers (r, out))
              (drain_queues-keeps e.answers n (r, out) still)
        by_fd false true = handle_accept-keeps e.answers.now e.answers.accepted n r h
        by_fd false false =
            by_socket (handle_socket can_reserve cfg e (r, out))
              (handle_socket-keeps e n (r, out) still)
