-- ===== src/Net/SocketTests.antt =====
-- A listen socket that fails, another one that is moved, and one that takes its place.
use redis_cpp.Base.{ℕ, ◌≡◌, refl, true, false, some, none, List, [], ◌∷◌}
use redis_cpp.Net.Socket.{
  close, close_fd, move_from, move_assign, release, ListenCalls, set_nonblocking, set_cloexec,
  make_tcp_listen, Bench, Use, listens, moves, assigns, gives_up, use_socket, use_all,
}
use redis_cpp.Resp.Parser.{throws}
use redis_cpp.Net.Handles.{OpenCalls, open_handles}
use redis_cpp.Net.HandlesOwned.{Closes, open-close}
use redis_cpp.Net.Owners.{Balanced, IsBalanced, opened, use_all-IsBalanced}

abbrev succeeds : ℕ → ListenCalls
succeeds n = record {
  socket = some n;
  getfl = true;
  setfl = true;
  getfd = true;
  setfd = true;
  bind = true;
  listen = true;
}

abbrev idle_bench : Bench
idle_bench = record { sockets = []; released = []; fds = [] }

idle_bench-IsBalanced : IsBalanced idle_bench
unfolding Balanced opened
idle_bench-IsBalanced n = refl

abbrev uses : List Use
uses =
    listens (record (succeeds 5) { bind = false })
    ∷ listens (succeeds 5)
    ∷ moves
    ∷ listens (succeeds 6)
    ∷ assigns
    ∷ gives_up
    ∷ []

uses_fds : (use_all uses idle_bench).fds ≡ 5 ∷ []
unfolding use_all use_socket make_tcp_listen set_nonblocking set_cloexec close_fd close move_from
    move_assign release
uses_fds = refl

use_all-IsBalanced_example : IsBalanced (use_all uses idle_bench)
use_all-IsBalanced_example = use_all-IsBalanced uses idle_bench idle_bench-IsBalanced

-- A constructor whose last call fails.
abbrev no_pipe : OpenCalls
no_pipe = record { listen = succeeds 3; epoll = some 4; pipe = none }

abbrev all_open : OpenCalls
all_open = record { listen = succeeds 3; epoll = some 4; pipe = some (5, 6) }

no_pipe_leaves : open_handles no_pipe [] ≡ (throws, 4 ∷ [])
unfolding open_handles make_tcp_listen set_nonblocking set_cloexec close_fd close
no_pipe_leaves = refl

open-close_example : Closes all_open (7 ∷ []) (open_handles all_open (7 ∷ [])) 5
open-close_example = open-close all_open (7 ∷ []) 5
