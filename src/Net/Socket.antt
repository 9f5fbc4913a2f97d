-- ===== src/Net/Socket.antt =====
-- src/net/Socket.hpp: the owner of a descriptor. The process's open descriptors are part of the state,
-- and what the system calls return is an argument. A negative descriptor is `none`.
use redis_cpp.Base.{
  ℕ, Bool, not, ◌&&◌, Option, none, some, List, [], ◌∷◌, ◌++◌, ◌==◌, if◌then◌else◌,
}
use redis_cpp.Resp.Parser.{Outcome, returns, throws}

pub record Socket : Type 0 where
  pub fd : Option ℕ

-- ::close
unfoldable pub close : ℕ → List ℕ → List ℕ
close n [] = []
close n (m ∷ fds) = let rest = close n fds in if m == n then fds else m ∷ rest

unfoldable pub close_fd : Socket → List ℕ → Socket × List ℕ
close_fd s fds = elim s.fd [ none ↦ (s, fds) | some n ↦ (record { fd = none }, close n fds) ]

-- The move constructor: the new socket, and what is left of the old one.
unfoldable pub move_from : Socket → Socket × Socket
move_from o = (record { fd = o.fd }, record { fd = none })

-- `s = std::move(o)` for two sockets: both, and the open descriptors.
unfoldable pub move_assign : Socket → Socket → List ℕ → (Socket × Socket) × List ℕ
unfolding close_fd move_from
move_assign s o fds = (move_from o, (close_fd s fds).1)

unfoldable pub release : Socket → Option ℕ × Socket
release s = (s.fd, record { fd = none })

-- What the calls return: the descriptor of ::socket, and for the others whether they succeed.
pub record ListenCalls : Type 0 where
  pub socket : Option ℕ
  pub getfl : Bool
  pub setfl : Bool
  pub getfd : Bool
  pub setfd : Bool
  pub bind : Bool
  pub listen : Bool

-- set_nonblocking and set_cloexec throw unless both of their calls succeed.
unfoldable pub set_nonblocking : ListenCalls → Bool
set_nonblocking calls = calls.getfl && calls.setfl

unfoldable pub set_cloexec : ListenCalls → Bool
set_cloexec calls = calls.getfd && calls.setfd

-- The exception of a later call closes the socket on its way out.
unfoldable pub make_tcp_listen : ListenCalls → List ℕ → Outcome Socket × List ℕ
unfolding set_nonblocking set_cloexec close_fd
make_tcp_listen calls fds = elim calls.socket [
  | none ↦ (throws, fds)
  | some n ↦
      let s : Socket = record { fd = some n } in
      let unwound : Outcome Socket × List ℕ = (throws, (close_fd s (n ∷ fds)).1) in
      if not (set_nonblocking calls)
      then unwound
      else if not (set_cloexec calls)
      then unwound
      else if not calls.bind
      then unwound
      else if not calls.listen
      then unwound
      else (returns s, n ∷ fds)
]

-- The sockets of the process, the first of them in use, and the descriptors that were released.
pub record Bench : Type 0 where
  pub sockets : List Socket
  pub released : List ℕ
  pub fds : List ℕ

-- A use of the sockets: a new listen socket; for the first one, its destructor, the move constructor,
-- or release; the move assignment to the first one from the second; and another socket's turn.
pub data Use : Type 0 where
  listens : ListenCalls → Use
  destroys moves assigns gives_up turns : Use

abbrev pub with_listener : Bench → Outcome Socket × List ℕ → Bench
with_listener b (returns s, fds) = record b { sockets = s ∷ b.sockets; fds = fds }
with_listener b (throws, fds) = record b { fds = fds }

unfoldable pub use_socket : Use → Bench → Bench
use_socket (listens calls) b = with_listener b (make_tcp_listen calls b.fds)
use_socket destroys b = elim b.sockets [
  | [] ↦ b
  | s ∷ ss ↦ record b { sockets = ss; fds = (close_fd s b.fds).1 }
]
use_socket moves b = elim b.sockets [
  | [] ↦ b
  | s ∷ ss ↦ record b { sockets = (move_from s).0 ∷ (move_from s).1 ∷ ss }
]
use_socket assigns b = elim b.sockets [
  | [] ↦ b
  | s ∷ ss ↦ (elim ss [
    | [] ↦ b
    | o ∷ rest ↦
        (let ((t, p), fds) = move_assign s o b.fds in
          record b { sockets = t ∷ p ∷ rest; fds = fds })
  ])
]
use_socket gives_up b = elim b.sockets [
  | [] ↦ b
  | s ∷ ss ↦ record b {
    sockets = (release s).1 ∷ ss;
    released = elim (release s).0 [ none ↦ b.released | some n ↦ n ∷ b.released ];
  }
]
use_socket turns b = elim b.sockets [ [] ↦ b | s ∷ ss ↦ record b { sockets = ss ++ s ∷ [] } ]

unfoldable pub use_all : List Use → Bench → Bench
unfolding use_socket
use_all [] b = b
use_all (u ∷ us) b = use_all us (use_socket u b)
