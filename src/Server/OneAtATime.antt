-- ===== src/Server/OneAtATime.antt =====
-- A connection's commands are on their way one at a time, whatever the order of the threads' steps.
use redis_cpp.Base.{ℕ, ◌+◌, ◌<◌, ◌≡◌, refl, ◌⊎◌, Bool, true, some, List, [], if◌then◌else◌, arith}
use redis_cpp.Resp.Parser.{Outcome, returns, throws}
use redis_cpp.Pool.Queue.{new_pool}
use redis_cpp.Store.State.{KvStore}
use redis_cpp.Net.Connection.{Connection}
use redis_cpp.Net.Table.{lookup}
use redis_cpp.Net.Reactor.{Reactor, make_reactor, process_completed_commands, handle_read_fd}
use redis_cpp.Net.Loop.{Config}
use redis_cpp.Net.Flight.{tally}
use redis_cpp.Net.Counts.{
  Holds, Sound, outstanding, handle_close-Sound, accept_one-Sound, accept_one-gen,
  handle_read_fd-Sound,
}
use redis_cpp.Net.Completions.{process_completed_commands-Sound, check_idle-Sound}
use redis_cpp.Net.Outgoing.{handle_write-Sound, process_pending_writes-Sound}
use redis_cpp.Net.Generations.{
  handle_close-gen, handle_read_fd-gen, handle_write-gen, process_pending_writes-gen,
  process_completed_commands-gen, check_idle-gen,
}
use redis_cpp.Server.System.{Work, Action, System, start_system, perform_all, accepted_in}
use redis_cpp.Server.Working.{
  held_by, take_task-IsSound, execute_nth-IsSound, finish_nth-IsSound, take_task-gen,
  execute_nth-gen, finish_nth-gen,
}
use redis_cpp.Server.Events.{HandlerLaws}
use redis_cpp.Server.Steps.{At, StepLaws, reached-keeps}

-- In step, with room for `n` more generations.
InStepFor : List Work → ℕ → Reactor → Type 0
InStepFor held n r = Sound (held_by held) r × (r.gen_counter + n < 18446744073709551616)

same_gen :
    (held : List Work) (n g : ℕ) (o : Outcome Reactor)
    → g + n < 18446744073709551616
    → Holds (Sound (held_by held)) o
    → ((s : Reactor) → o ≡ returns s → s.gen_counter ≡ g)
    → Holds (InStepFor held n) o
unfolding InStepFor
same_gen held n g throws small h e = tt
same_gen held n g (returns s) small h e = (h, omega (arith, e s refl))

handlers-InStepFor : (held : List Work) → HandlerLaws (InStepFor held)
unfolding InStepFor
handlers-InStepFor held = record {
  fewer = λ n r h. (h.0, omega (arith, h.1));
  closes = λ n fd r h.
      (handle_close-Sound (held_by held) fd r h.0, omega (arith, h.1, handle_close-gen fd r));
  accepts = λ n now fd r h. (
    accept_one-Sound (held_by held) now fd r (omega (arith, h.1)) h.0,
    omega (arith, h.1, accept_one-gen now fd r (omega (arith, h.1))),
  );
  reads = λ can_reserve most now chunks end n fd r h.
      same_gen held n r.gen_counter (handle_read_fd can_reserve most now chunks end fd r) h.1
        (handle_read_fd-Sound (held_by held) can_reserve most now chunks end fd r h.0)
        (handle_read_fd-gen can_reserve most now chunks end fd r);
  writes = λ kernel n fd r h. (
    handle_write-Sound (held_by held) kernel fd r h.0,
    omega (arith, h.1, handle_write-gen kernel fd r),
  );
  replies = λ kernel has_memory n r h. (
    process_pending_writes-Sound (held_by held) kernel has_memory r h.0,
    omega (arith, h.1, process_pending_writes-gen kernel has_memory r),
  );
  completes = λ n r h.
      same_gen held n r.gen_counter (process_completed_commands r) h.1
        (process_completed_commands-Sound (held_by held) r h.0) (process_completed_commands-gen r);
  idles = λ now limit n r h. (
    check_idle-Sound (held_by held) now limit r h.0,
    omega (arith, h.1, check_idle-gen now limit r),
  );
  stops = λ n r h. h;
}

steps-InStepFor : StepLaws InStepFor
unfolding InStepFor
steps-InStepFor = record {
  handlers = handlers-InStepFor;
  takes = λ n s h. (take_task-IsSound s h.0, omega (arith, h.1, take_task-gen s));
  runs = λ i t n s h. (execute_nth-IsSound i t s h.0, omega (arith, h.1, execute_nth-gen i t s));
  notifies = λ i n s h. (finish_nth-IsSound i s h.0, omega (arith, h.1, finish_nth-gen i s));
}

start-InStepFor :
    (listen_fd stop_fd : ℕ) (store : KvStore) (n : ℕ)
    → n < 18446744073709551616
    → At InStepFor n (start_system listen_fd stop_fd new_pool store)
unfolding make_reactor lookup tally InStepFor
start-InStepFor listen_fd stop_fd store n small =
    (record { each = λ fd c p. absurd cc; fresh = λ fd gen lt. omega arith }, omega arith)

module _ (can_reserve : ℕ → Bool) (cfg : Config) where
  -- In every system that is reached from a new one by events of the reactor's loop, by its calls
  -- of process_pending_writes and of process_completed_commands, by its idle scans and by steps
  -- of the workers, in any order, each connection of the table stands under its own descriptor
  -- and is alive; of the commands that were handed over for its descriptor and generation,
  -- exactly one is in the pool, with a worker or in the list of the completed ones if the
  -- connection is processing, and none otherwise; and a connection that is not processing has no
  -- command waiting. Fewer than 2^64 connections have been accepted, and no exception has left a
  -- handler.
  pub one_at_a_time :
      (listen_fd stop_fd : ℕ) (store : KvStore) (actions : List Action) (s : System)
      → accepted_in actions < 18446744073709551616
      → perform_all can_reserve cfg actions (start_system listen_fd stop_fd new_pool store)
        ≡ returns s
      → (fd : ℕ) (c : Connection) → lookup fd s.reactor.conns ≡ some c
      → (c.fd ≡ fd)
        × (c.alive ≡ true)
        × (outstanding (held_by s.working) s.reactor fd c.generation
            ≡ (if c.processing then 1 else 0))
        × ((c.processing ≡ true) ⊎ (c.command_queue ≡ []))
  unfolding InStepFor
  one_at_a_time listen_fd stop_fd store actions s small e fd c p =
      let (h, _) =
        reached-keeps InStepFor steps-InStepFor can_reserve cfg actions
          (start_system listen_fd stop_fd new_pool store) s
          (start-InStepFor listen_fd stop_fd store (accepted_in actions) small) e in
      let i = h.each fd c p in (i.own_fd, i.alive, i.count, i.busy)
