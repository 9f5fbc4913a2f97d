-- ===== src/Server/Tests.antt =====
-- A client that connects and sends two PINGs at once; a worker answers the first.
use redis_cpp.Base.{
  ◌≡◌, ◌<◌, refl, ◌⊎◌, ℕ, Bool, true, false, some, List, [], ◌∷◌, codes, toupper, bytes_eq, pos,
  arith, zero, suc,
}
use redis_cpp.Resp.Parser.{Outcome, returns, throws, parse, parse_inline}
use redis_cpp.Net.Reactor.{
  make_reactor, epoll_add, accept_one, handle_accept, submit, after_read, handle_read_fd, send,
  write_all, write_one, after_reply, epoll_mod, process_pending_writes, process_completed_commands,
  complete_all, reading_and_writing,
}
use redis_cpp.Net.Frames.{extract_frames, frames_loop}
use redis_cpp.Resp.Inline.{line_end, push_command, tokens, next_token, plain, skip_blanks}
use redis_cpp.Resp.Scan.{crlf_from, find_crlf}
use redis_cpp.Commands.Command.{Times, execute, name, min_args, max_args}
use redis_cpp.Commands.Dispatch.{
  on_message, dispatch, registry, put_command, register_command, find_command, checked,
}
use redis_cpp.Resp.Encode.{simple_string, bulk_string}
use redis_cpp.Server.Writable.{unsent_armed}
use redis_cpp.Net.Sending.{unsent}
use redis_cpp.Recovery.Startup.{fresh}
use redis_cpp.Pool.Queue.{new_pool, enqueue, next_task, worker_round}
use redis_cpp.Net.Connection.{
  Written, would_block, wrote, Connection, drained, make_connection, take_chunks, queue_commands,
  dispatch_front, dispatch_next_command, dispatch_if_idle, parse_and_queue, handle_read, flush,
  flush_loop, flush_end, send_enqueue,
}
use redis_cpp.Net.Table.{lookup, put}
use redis_cpp.Net.Loop.{Config, Answers, write_if, handle_socket, handle_event}
use redis_cpp.Net.Counts.{outstanding}
use redis_cpp.Server.System.{
  flushes_pending, completes_pending, start_system, Action, handles, works, executes, System,
  perform_all, accepted_in, take_task, pick, run_task, execute_nth, perform,
}
use redis_cpp.Server.Working.{held_by}
use redis_cpp.Server.OneAtATime.{one_at_a_time}

abbrev always : ℕ → Bool
always _ = true

abbrev cfg : Config
cfg = record { idle_timeout_s = 300; max_recv_bytes = 65536; listen_fd = 3; stop_fd = 4 }

abbrev quiet : Answers
quiet = record {
  pipe_reads = [];
  accepted = [];
  now = 1;
  chunks = [];
  read_end = drained;
  written = λ _. would_block;
  kernel = λ _ _. wrote 100;
  has_memory = λ _. true;
}

abbrev connects : Action
connects = handles (record {
  fd = 3;
  is_error = false;
  is_read = true;
  is_write = false;
  answers = record quiet { accepted = 7 ∷ [] };
})

abbrev asks_twice : Action
asks_twice = handles (record {
  fd = 7;
  is_error = false;
  is_read = true;
  is_write = false;
  answers = record quiet { chunks = codes "PING\r\nPING\r\n" ∷ [] };
})

abbrev noon : Times
noon = record { now = pos 5; later = pos 5 }

abbrev session : List Action
session = connects ∷ asks_twice ∷ works ∷ executes 0 noon ∷ []

abbrev first_system : System
first_system = start_system 3 4 new_pool fresh

abbrev system_of : Outcome System → System
system_of throws = first_system
system_of (returns s) = s

abbrev reached : System
reached = system_of (perform_all always cfg session first_system)

abbrev client : Connection
client = record {
  fd = 7;
  generation = 1;
  alive = true;
  last_active = 1;
  recv_buf = [];
  send_buf = [];
  send_offset = 0;
  command_queue = (codes "PING" ∷ []) ∷ [];
  processing = true;
}

session_reaches :
    (perform_all always cfg session first_system ≡ returns reached)
    × (lookup 7 reached.reactor.conns ≡ some client)
unfolding make_reactor epoll_add accept_one handle_accept submit after_read handle_read_fd send
    write_if handle_socket handle_event make_connection take_chunks queue_commands dispatch_front
    dispatch_next_command dispatch_if_idle parse_and_queue handle_read lookup put extract_frames
    frames_loop parse parse_inline tokens next_token plain skip_blanks crlf_from find_crlf enqueue
    next_task worker_round take_task pick run_task execute_nth perform perform_all line_end
    push_command toupper
session_reaches = (refl, refl)

session_accepted : accepted_in session < 18446744073709551616
unfolding accepted_in
session_accepted = omega arith

one_at_a_time_example :
    (client.fd ≡ 7)
    × (client.alive ≡ true)
    × (outstanding (held_by reached.working) reached.reactor 7 1 ≡ 1)
    × ((client.processing ≡ true) ⊎ (client.command_queue ≡ []))
one_at_a_time_example =
    one_at_a_time always cfg 3 4 fresh session reached session_accepted session_reaches.0 7 client
      session_reaches.1

-- The kernel takes three bytes of the answer and then no more.
abbrev blocks_after_three : ℕ → Written
blocks_after_three zero = wrote 3
blocks_after_three (suc _) = would_block

abbrev slow_session : List Action
slow_session =
    connects
    ∷ asks_twice
    ∷ works
    ∷ executes 0 noon
    ∷ flushes_pending (record quiet { kernel = λ _. blocks_after_three })
    ∷ completes_pending
    ∷ []

abbrev slow_reached : System
slow_reached = system_of (perform_all always cfg slow_session first_system)

abbrev slow_client : Connection
slow_client = record client { send_buf = codes "+PONG\r\n"; send_offset = 3 }

slow_session_reaches :
    (perform_all always cfg slow_session first_system ≡ returns slow_reached)
    × (lookup 7 slow_reached.reactor.conns ≡ some slow_client)
unfolding make_reactor epoll_add accept_one handle_accept submit after_read handle_read_fd send
    write_if handle_socket handle_event make_connection take_chunks queue_commands dispatch_front
    dispatch_next_command dispatch_if_idle parse_and_queue handle_read lookup put extract_frames
    frames_loop parse parse_inline tokens next_token plain skip_blanks crlf_from find_crlf enqueue
    next_task worker_round take_task pick run_task execute_nth perform perform_all line_end
    push_command toupper write_all write_one after_reply epoll_mod process_pending_writes
    process_completed_commands complete_all flush flush_loop flush_end send_enqueue on_message
    dispatch registry put_command register_command find_command checked execute name min_args
    max_args simple_string bulk_string bytes_eq
slow_session_reaches = (refl, refl)

unsent_armed_example :
    (unsent slow_client ≡ []) ⊎ (lookup 7 slow_reached.reactor.interests ≡ some reading_and_writing)
unsent_armed_example =
    unsent_armed always cfg 3 4 fresh slow_session slow_reached slow_session_reaches.0 7 slow_client
      slow_session_reaches.1
