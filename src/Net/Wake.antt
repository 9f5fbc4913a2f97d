-- ===== src/Net/Wake.antt =====
-- How src/net/EpollReactor.cpp wakes the reactor: the pipe `stop_pipe_`, what the threads write to it in
-- send, notify_command_complete and stop, and where the reactor's thread reads it and empties the two
-- lists.
use redis_cpp.Base.{
  ℕ, zero, suc, ◌+◌, ◌≡◌, ◌≢◌, Bool, true, false, List, [], ◌∷◌, ◌++◌, Bytes, if◌then◌else◌,
}
use redis_cpp.Resp.Parser.{returns}
use redis_cpp.Net.Connection.{Written}
use redis_cpp.Net.Reactor.{
  Reactor, process_pending_writes, process_completed_commands, check_idle, handle_accept, send,
  Sent, notify_command_complete,
}
use redis_cpp.Net.Loop.{Config, Ready, handle_socket}

-- Where the reactor's thread is: between two of the events below, epoll_wait among them; behind the
-- reads from the pipe; or between process_pending_writes and process_completed_commands.
pub data Phase : Type 0 where
  polling woken halfway : Phase

-- `owed` is the bytes that threads have still to write, which have left their section on a list.
pub record Waking : Type 0 where
  pub reactor : Reactor
  pub pipe : List ℕ
  pub owed : List ℕ
  pub phase : Phase

-- send and notify_command_complete up to the end of their section: the byte is not written yet.
unfoldable pub begin_send : ℕ → ℕ → Bytes → Waking → Waking
begin_send fd gen bytes s = record s {
  reactor = send fd gen bytes s.reactor;
  owed = s.owed ++ b'W' ∷ [];
}

unfoldable pub begin_notify : ℕ → ℕ → Waking → Waking
begin_notify fd gen s = record s {
  reactor = notify_command_complete fd gen s.reactor;
  owed = s.owed ++ b'C' ∷ [];
}

-- `(void)::write(stop_pipe_[1], &b, 1)`, whose result is not looked at.
unfoldable pub write_owed : List ℕ → ℕ → List ℕ → Bool → Waking → Waking
write_owed before b behind taken s = record s {
  pipe = if taken then s.pipe ++ b ∷ [] else s.pipe;
  owed = before ++ behind;
}

-- What ::write returns in stop: 1, EINTR, EAGAIN, 0, or -1 with any other error.
pub data StopWrite : Type 0 where
  wrote again full nothing broken : StopWrite

-- The loop of stop, with the attempts that are left; whether the byte is in the pipe.
unfoldable pub stop_attempts : ℕ → (ℕ → StopWrite) → ℕ → Bool
stop_attempts zero write i = false
stop_attempts (suc n) write i = elim (write i) [
  | wrote ↦ true
  | again ↦ stop_attempts n write (i + 1)
  | full ↦ stop_attempts n write (i + 1)
  | nothing ↦ stop_attempts n write (i + 1)
  | broken ↦ false
]

-- stop, with the pipe that the constructor made.
unfoldable pub stop_reactor : (ℕ → StopWrite) → Waking → Waking
stop_reactor write s =
    let written = stop_attempts 100 write 0 in
    record s {
      reactor = record s.reactor { running = false };
      pipe = if written then s.pipe ++ b'S' ∷ [] else s.pipe;
    }

-- A step of the reactor's thread or of another one. A write to the pipe fails only where the pipe is
-- full, and so has a byte; the reads take bytes from its front.
pub data Step (can_reserve : ℕ → Bool) (cfg : Config) (s : Waking) : Waking → Type 0 where
  sends : (fd gen : ℕ) (bytes : Bytes) → Step can_reserve cfg s (begin_send fd gen bytes s)
  notifies : (fd gen : ℕ) → Step can_reserve cfg s (begin_notify fd gen s)
  writes :
      (before : List ℕ) (b : ℕ) (behind : List ℕ) (taken : Bool)
      → s.owed ≡ before ++ b ∷ behind
      → (taken ≡ false → s.pipe ≢ [])
      → Step can_reserve cfg s (write_owed before b behind taken s)
  stops : (write : ℕ → StopWrite) → Step can_reserve cfg s (stop_reactor write s)
  wakes :
      (read rest : List ℕ)
      → s.phase ≡ polling
      → s.pipe ≡ read ++ rest
      → Step can_reserve cfg s (record s { pipe = rest; phase = woken })
  replies :
      (kernel : ℕ → ℕ → Written) (has_memory : ℕ → Bool)
      → s.phase ≢ halfway
      → Step can_reserve cfg s (record s {
        reactor = (process_pending_writes kernel has_memory s.reactor).0;
        phase = halfway;
      })
  completes :
      (r : Reactor)
      → s.phase ≡ halfway
      → process_completed_commands s.reactor ≡ returns r
      → Step can_reserve cfg s (record s { reactor = r; phase = polling })
  accepts :
      (now : ℕ) (fds : List ℕ)
      → s.phase ≡ polling
      → Step can_reserve cfg s (record s { reactor = handle_accept now fds s.reactor })
  serves :
      (e : Ready) (r : Reactor) (out : List Sent)
      → s.phase ≡ polling
      → handle_socket can_reserve cfg e (s.reactor, []) ≡ returns (r, out)
      → Step can_reserve cfg s (record s { reactor = r })
  idles :
      (now : ℕ)
      → s.phase ≡ polling
      → Step can_reserve cfg s (record s { reactor = check_idle now cfg.idle_timeout_s s.reactor })
  halts :
      s.phase ≡ polling
      → Step can_reserve cfg s (record s { reactor = record s.reactor { running = false } })

pub data Reached (can_reserve : ℕ → Bool) (cfg : Config) (s : Waking) : Waking → Type 0 where
  here : Reached can_reserve cfg s s
  next :
      {t u : Waking}
      → Reached can_reserve cfg s t
      → Step can_reserve cfg t u
      → Reached can_reserve cfg s u
