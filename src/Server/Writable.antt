-- ===== src/Server/Writable.antt =====
-- No wake-up for unsent bytes is lost, whatever the order of the threads' steps.
use redis_cpp.Base.{Bool, ℕ, ◌≡◌, sym, subst, ◌⊎◌, inl, inr, some, List, []}
use redis_cpp.Resp.Parser.{returns}
use redis_cpp.Pool.Queue.{new_pool}
use redis_cpp.Store.State.{KvStore}
use redis_cpp.Net.Connection.{Connection}
use redis_cpp.Net.Sending.{unsent}
use redis_cpp.Net.Table.{lookup}
use redis_cpp.Net.Reactor.{Reactor, make_reactor, reading_and_writing}
use redis_cpp.Net.Loop.{Config}
use redis_cpp.Net.Armed.{
  IsWatched, armed, at_rest, IsArmed, handle_close-IsArmed, accept_one-IsArmed,
}
use redis_cpp.Net.Arming.{
  AllArmed, handle_read_fd-AllArmed, handle_write-AllArmed, process_pending_writes-AllArmed,
  process_completed_commands-AllArmed, check_idle-AllArmed,
}
use redis_cpp.Server.System.{
  Work, Action, System, start_system, take_task, execute_nth, finish_nth, perform_all,
}
use redis_cpp.Server.Working.{take_task-alone, execute_nth-alone, finish_nth-alone}
use redis_cpp.Server.Events.{HandlerLaws}
use redis_cpp.Server.Steps.{StepLaws, reached-keeps}

ArmedFor : List Work → ℕ → Reactor → Type 0
ArmedFor held n r = AllArmed r

handlers-ArmedFor : (held : List Work) → HandlerLaws (ArmedFor held)
unfolding ArmedFor
handlers-ArmedFor held = record {
  fewer = λ n r h. h;
  closes = λ n fd r h. handle_close-IsArmed r h fd;
  accepts = λ n now fd r h. accept_one-IsArmed r h now fd;
  reads = λ can_reserve most now chunks end n fd r h.
      handle_read_fd-AllArmed can_reserve most now chunks end fd r h;
  writes = λ kernel n fd r h. handle_write-AllArmed kernel fd r h;
  replies = λ kernel has_memory n r h. process_pending_writes-AllArmed kernel has_memory r h;
  completes = λ n r h. process_completed_commands-AllArmed r h;
  idles = λ now limit n r h. check_idle-AllArmed now limit r h;
  stops = λ n r h. h;
}

-- The same tables.
AllArmed-alone :
    (r s : Reactor) → (s.conns ≡ r.conns) × (s.interests ≡ r.interests) → AllArmed r → AllArmed s
AllArmed-alone r s (p, q) h =
    subst (λ m. IsArmed m s.interests) (sym p) (subst (IsArmed r.conns) (sym q) h)

steps-ArmedFor : StepLaws ArmedFor
unfolding ArmedFor
steps-ArmedFor = record {
  handlers = handlers-ArmedFor;
  takes = λ n s h. AllArmed-alone s.reactor (take_task s).reactor (take_task-alone s) h;
  runs =
      λ i t n s h. AllArmed-alone s.reactor (execute_nth i t s).reactor (execute_nth-alone i t s) h;
  notifies = λ i n s h. AllArmed-alone s.reactor (finish_nth i s).reactor (finish_nth-alone i s) h;
}

module _ (can_reserve : ℕ → Bool) (cfg : Config) where
  -- In every system that is reached from a new one by events of the reactor's loop, by its calls
  -- of process_pending_writes and of process_completed_commands, by its idle scans and by steps
  -- of the workers, in any order and without an exception that leaves a handler, a connection of
  -- the table has no unsent byte, or the interest list has its descriptor with EPOLLOUT.
  pub unsent_armed :
      (listen_fd stop_fd : ℕ) (store : KvStore) (actions : List Action) (s : System)
      → perform_all can_reserve cfg actions (start_system listen_fd stop_fd new_pool store)
        ≡ returns s
      → (fd : ℕ) (c : Connection) → lookup fd s.reactor.conns ≡ some c
      → (unsent c ≡ []) ⊎ (lookup fd s.reactor.interests ≡ some reading_and_writing)
  unfolding ArmedFor IsArmed make_reactor lookup
  unsent_armed listen_fd stop_fd store actions s e fd c p = by_watch (
      reached-keeps ArmedFor steps-ArmedFor can_reserve cfg actions
        (start_system listen_fd stop_fd new_pool store) s (λ j d q. absurd cc) e fd c p)
    where
      by_watch :
          IsWatched (lookup fd s.reactor.interests) c
          → (unsent c ≡ []) ⊎ (lookup fd s.reactor.interests ≡ some reading_and_writing)
      by_watch (armed q) = inr q
      by_watch (at_rest i q u) = inl u
