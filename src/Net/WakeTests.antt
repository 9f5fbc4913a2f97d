-- ===== src/Net/WakeTests.antt =====
-- A reply that wakes the reactor, and a reactor that is told to stop.
use redis_cpp.Base.{ℕ, ◌≡◌, refl, inl, Bool, true, false, [], ◌∷◌, codes}
use redis_cpp.Resp.Parser.{returns}
use redis_cpp.Pool.Queue.{new_pool}
use redis_cpp.Net.Connection.{Written, wrote, drained}
use redis_cpp.Net.Reactor.{
  make_reactor, process_pending_writes, process_completed_commands, complete_all, write_all, send,
  write_one,
}
use redis_cpp.Net.Table.{lookup}
use redis_cpp.Net.Loop.{
  Config, Answers, Ready, State, got, interrupted, no_more, read_pipe, has_stop, drain_queues,
  handle_event, handle_events, iteration,
}
use redis_cpp.Net.Run.{Moment, ready, left, halt_if, run_loop}
use redis_cpp.Net.Stops.{run_loop_stops}
use redis_cpp.Net.Wake.{
  Waking, polling, begin_send, write_owed, sends, writes, wakes, replies, completes, Reached, here,
  next,
}
use redis_cpp.Net.Heard.{no_wake_up_lost}

abbrev config : Config
config = record { idle_timeout_s = 60; max_recv_bytes = 1000; listen_fd = 3; stop_fd = 4 }

abbrev always : ℕ → Bool
always n = true

abbrev asleep : Waking
asleep = record { reactor = make_reactor 3 4 new_pool; pipe = []; owed = []; phase = polling }

abbrev waiting : Waking
waiting = write_owed [] b'W' [] true (begin_send 8 1 (codes "+OK") asleep)

abbrev kernel : ℕ → ℕ → Written
kernel i j = wrote 1

abbrev handled : Waking
handled = record waiting { reactor = make_reactor 3 4 new_pool; pipe = []; phase = polling }

handled-Reached : Reached always config asleep handled
unfolding begin_send write_owed send make_reactor process_pending_writes write_all write_one
    process_completed_commands complete_all lookup
handled-Reached =
    next
      (next
        (next
          (next (next here (sends 8 1 (codes "+OK")))
            (writes [] b'W' [] true refl (λ q. absurd cc)))
          (wakes (b'W' ∷ []) [] refl refl))
        (replies kernel always (λ q. cc)))
      (completes (make_reactor 3 4 new_pool) refl refl)

no_wake_up_lost_example :
    (handled.reactor.pending_writes ≡ []) × (handled.reactor.completed_commands ≡ [])
no_wake_up_lost_example =
    no_wake_up_lost always config asleep handled refl (unfold make_reactor in refl)
      (unfold make_reactor in refl) handled-Reached refl (unfold begin_send write_owed in refl) refl

-- The worker's byte and that of stop() are read, with an EINTR between them.
abbrev answers : Answers
answers = record {
  pipe_reads = got (b'W' ∷ []) ∷ interrupted ∷ got (b'S' ∷ []) ∷ no_more ∷ [];
  accepted = [];
  now = 10;
  chunks = [];
  read_end = drained;
  written = λ i. wrote 1;
  kernel = kernel;
  has_memory = always;
}

abbrev told_to_stop : Ready
told_to_stop = record {
  fd = 4;
  is_error = false;
  is_read = true;
  is_write = false;
  answers = answers;
}

abbrev at_start : State
at_start = (record (make_reactor 3 4 new_pool) { running = true }, [])

stopped_round :
    iteration always config (told_to_stop ∷ []) answers 10 at_start
    ≡ returns ((make_reactor 3 4 new_pool, []), 10)
unfolding iteration handle_events handle_event drain_queues make_reactor process_pending_writes
    write_all process_completed_commands complete_all read_pipe
stopped_round = refl

run_loop_stops_example :
    (run_loop always config
        (ready (told_to_stop ∷ []) answers false ∷ Moment.failed ∷ [])
        10
        at_start
      ≡ returns (halt_if false (make_reactor 3 4 new_pool, []), left))
    × ((halt_if false (make_reactor 3 4 new_pool, [])).0.running ≡ false)
run_loop_stops_example =
    run_loop_stops always config (told_to_stop ∷ []) answers false (Moment.failed ∷ []) 10 at_start
      (make_reactor 3 4 new_pool, []) 10 (inl (refl, unfold read_pipe has_stop in refl))
      stopped_round
