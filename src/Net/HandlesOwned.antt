-- ===== src/Net/HandlesOwned.antt =====
-- The destructor of src/net/EpollReactor.cpp closes what its constructor has opened; a constructor that
-- fails at the pipe leaves the epoll descriptor open.
use redis_cpp.Base.{ℕ, ◌+◌, ◌≤◌, ◌≡◌, refl, ◌⊎◌, inl, inr, Option, none, some, List, [], ◌∷◌, arith}
use redis_cpp.Resp.Parser.{Outcome, returns, throws}
use redis_cpp.Net.Socket.{
  Socket, close, close_fd, ListenCalls, make_tcp_listen, with_listener, use_socket, Bench,
}
use redis_cpp.Net.Owners.{
  opened, holds, Balanced, IsBalanced, holds_self, opened-close, listens-IsBalanced,
}
use redis_cpp.Net.Handles.{
  Handles, OpenCalls, open_epoll, behind_listen, open_handles, close_handles,
}

-- What a listen socket adds to the open descriptors.
Listens : List ℕ → Outcome Socket × List ℕ → Type 0
Listens fds (throws, fds') = (n : ℕ) → opened n fds' ≡ opened n fds
Listens fds (returns s, fds') = (n : ℕ) → opened n fds' ≡ holds s.fd n + opened n fds

make_tcp_listen-Listens :
    (calls : ListenCalls) (fds : List ℕ) → Listens fds (make_tcp_listen calls fds)
unfolding Listens Balanced use_socket
make_tcp_listen-Listens calls fds =
    by_end (make_tcp_listen calls fds) (listens-IsBalanced calls bench (λ n. omega arith))
  where
    bench : Bench
    bench = record { sockets = []; released = fds; fds = fds }

    by_end : (o : Outcome Socket × List ℕ) → IsBalanced (with_listener bench o) → Listens fds o
    by_end (throws, fds') h = λ n. omega (arith, h n)
    by_end (returns s, fds') h = λ n. omega (arith, h n)

-- The descriptors behind the constructor: after the destructor they are the ones before, and where
-- the constructor has thrown they are too, but for that of epoll where it was the pipe that failed.
abbrev pub Closes : OpenCalls → List ℕ → Outcome Handles × List ℕ → ℕ → Type 0
Closes calls fds (returns h, fds') n = opened n (close_handles h fds') ≡ opened n fds
Closes calls fds (throws, fds') n =
    (opened n fds' ≡ opened n fds)
    ⊎ ((calls.pipe ≡ none) × (opened n fds' ≡ holds calls.epoll n + opened n fds))

-- Destroying a socket that is open.
opened-close_fd :
    (s : Socket) (fds : List ℕ)
    → ((n : ℕ) → holds s.fd n ≤ opened n fds)
    → (n : ℕ) → holds s.fd n + opened n (close_fd s fds).1 ≡ opened n fds
unfolding close_fd
opened-close_fd s fds h n = by_fd s.fd h
  where
    closed : Option ℕ → Socket × List ℕ
    closed none = (s, fds)
    closed (some m) = (record { fd = none }, close m fds)

    by_fd :
        (o : Option ℕ)
        → ((n : ℕ) → holds o n ≤ opened n fds)
        → holds o n + opened n (closed o).1 ≡ opened n fds
    by_fd none k = omega arith
    by_fd (some m) k = opened-close m n fds (omega (arith, k m, holds_self m))

opened-cons : (m n : ℕ) (fds : List ℕ) → opened n (m ∷ fds) ≡ holds (some m) n + opened n fds
unfolding opened
opened-cons m n fds = refl

-- The destructor, on descriptors that are those of the handles and `fds`.
opened-close_handles :
    (h : Handles) (all fds : List ℕ)
    → ((n : ℕ)
        → opened n all
          ≡ holds (some h.pipe_read) n
            + holds (some h.pipe_write) n
            + holds (some h.epoll_fd) n
            + holds h.listen_sock.fd n
            + opened n fds)
    → (n : ℕ) → opened n (close_handles h all) ≡ opened n fds
unfolding close_handles
opened-close_handles h all fds total n =
    omega
      (arith, opened-close_fd h.listen_sock third (λ m. omega (arith, on_third m)) n, on_third n)
  where
    first : List ℕ
    first = close h.epoll_fd all

    second : List ℕ
    second = close h.pipe_read first

    third : List ℕ
    third = close h.pipe_write second

    on_first :
        (m : ℕ)
        → opened m first
          ≡ holds (some h.pipe_read) m
            + holds (some h.pipe_write) m
            + holds h.listen_sock.fd m
            + opened m fds
    on_first m = omega (
      arith,
      total m,
      opened-close h.epoll_fd m all (omega (arith, total h.epoll_fd, holds_self h.epoll_fd)),
    )

    on_second :
        (m : ℕ)
        → opened m second ≡ holds (some h.pipe_write) m + holds h.listen_sock.fd m + opened m fds
    on_second m = omega (
      arith,
      on_first m,
      opened-close h.pipe_read m first
          (omega (arith, on_first h.pipe_read, holds_self h.pipe_read)),
    )

    on_third : (m : ℕ) → opened m third ≡ holds h.listen_sock.fd m + opened m fds
    on_third m = omega (
      arith,
      on_second m,
      opened-close h.pipe_write m second
          (omega (arith, on_second h.pipe_write, holds_self h.pipe_write)),
    )

behind_listen-Closes :
    (calls : OpenCalls) (fds : List ℕ) (o : Outcome Socket × List ℕ) (n : ℕ)
    → Listens fds o
    → Closes calls fds (behind_listen calls o) n
unfolding Listens behind_listen
behind_listen-Closes calls fds (throws, fds') n h = inl (h n)
behind_listen-Closes calls fds (returns s, fds') n h = by_epoll calls.epoll calls.pipe
  where
    without : (e : ℕ) → holds s.fd n + opened n (close_fd s (e ∷ fds')).1 ≡ opened n (e ∷ fds')
    without e = opened-close_fd s (e ∷ fds') (λ m. omega (arith, h m, opened-cons e m fds')) n

    by_epoll :
        (epoll : Option ℕ) (pipe : Option (ℕ × ℕ))
        → Closes
            (record { listen = calls.listen; epoll = epoll; pipe = pipe })
            fds
            (open_epoll (record { listen = calls.listen; epoll = epoll; pipe = pipe }) s fds')
            n
    by_epoll none pipe =
        inl (omega (arith, opened-close_fd s fds' (λ m. omega (arith, h m)) n, h n))
    by_epoll (some e) none = inr (refl, omega (arith, without e, h n, opened-cons e n fds'))
    by_epoll (some e) (some (r, w)) =
        opened-close_handles _ (r ∷ w ∷ e ∷ fds') fds
          (λ m. omega (
            arith,
            h m,
            opened-cons r m (w ∷ e ∷ fds'),
            opened-cons w m (e ∷ fds'),
            opened-cons e m fds',
          ))
          n

-- Whatever the system calls return: behind a constructor of the reactor and its destructor, each
-- descriptor is open as often as before the constructor. Behind a constructor that throws it is
-- too, or the pipe has failed and one descriptor is open in addition, that of epoll.
pub open-close :
    (calls : OpenCalls) (fds : List ℕ) (n : ℕ) → Closes calls fds (open_handles calls fds) n
unfolding open_handles
open-close calls fds n =
    behind_listen-Closes calls fds (make_tcp_listen calls.listen fds) n
      (make_tcp_listen-Listens calls.listen fds)
