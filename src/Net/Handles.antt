-- ===== src/Net/Handles.antt =====
-- The descriptors that the constructor of src/net/EpollReactor.cpp opens and its destructor closes. What
-- the system calls return is an argument.
use redis_cpp.Base.{ℕ, Option, none, some, List, ◌∷◌}
use redis_cpp.Resp.Parser.{Outcome, returns, throws}
use redis_cpp.Net.Socket.{Socket, close, close_fd, ListenCalls, make_tcp_listen}

-- listen_sock_, epoll_fd_ and stop_pipe_
pub record Handles : Type 0 where
  pub listen_sock : Socket
  pub epoll_fd : ℕ
  pub pipe_read : ℕ
  pub pipe_write : ℕ

-- What ::epoll_create1 and ::pipe return, `none` where they fail.
pub record OpenCalls : Type 0 where
  pub listen : ListenCalls
  pub epoll : Option ℕ
  pub pipe : Option (ℕ × ℕ)

-- The end of the constructor. Where it throws, the members that are there are destroyed, listen_sock_
-- among them, and the destructor of the class does not run.
unfoldable pub open_pipe : Option (ℕ × ℕ) → Socket → ℕ → List ℕ → Outcome Handles × List ℕ
open_pipe none s e fds = (throws, (close_fd s fds).1)
open_pipe (some (r, w)) s e fds =
    (returns (record { listen_sock = s; epoll_fd = e; pipe_read = r; pipe_write = w }), r ∷ w ∷ fds)

unfoldable pub open_epoll : OpenCalls → Socket → List ℕ → Outcome Handles × List ℕ
unfolding open_pipe
open_epoll calls s fds = elim calls.epoll [
  | none ↦ (throws, (close_fd s fds).1)
  | some e ↦ open_pipe calls.pipe s e (e ∷ fds)
]

unfoldable pub behind_listen : OpenCalls → Outcome Socket × List ℕ → Outcome Handles × List ℕ
unfolding open_epoll
behind_listen calls (throws, fds) = (throws, fds)
behind_listen calls (returns s, fds) = open_epoll calls s fds

unfoldable pub open_handles : OpenCalls → List ℕ → Outcome Handles × List ℕ
unfolding behind_listen
open_handles calls fds = behind_listen calls (make_tcp_listen calls.listen fds)

-- The destructor, and then that of listen_sock_.
unfoldable pub close_handles : Handles → List ℕ → List ℕ
close_handles h fds =
    (close_fd h.listen_sock (close h.pipe_write (close h.pipe_read (close h.epoll_fd fds)))).1
