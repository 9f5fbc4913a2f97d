-- ===== src/Net/Events.antt =====
-- What happens to a connection of src/net/EpollReactor.cpp over its life: its socket is readable, or
-- the thread pool reports a command as done.
use redis_cpp.Base.{ℕ, suc, Bool, Option, none, some, List, [], ◌∷◌, ◌++◌, Bytes}
use redis_cpp.Resp.Parser.{Outcome, returns, throws}
use redis_cpp.Net.Connection.{Connection, make_connection, drained, handle_read, command_complete}

-- What happens to a connection: its socket is readable, at a time, with these chunks before EAGAIN, or
-- the pool reports that a command is done.
pub data Event : Type 0 where
  readable : ℕ → List Bytes → Event
  completed : Event

-- The connection after an event, with the commands that have been handed to the pool.
pub record Run : Type 0 where
  pub conn : Connection
  pub dispatched : List (List Bytes)

unfoldable pub hand_over : Option (List Bytes) → List (List Bytes) → List (List Bytes)
hand_over none sent = sent
hand_over (some args) sent = sent ++ args ∷ []

abbrev pub run_of : List (List Bytes) → Connection × Option (List Bytes) → Run
run_of sent (c, task) = record { conn = c; dispatched = hand_over task sent }

unfoldable pub joined : List Bytes → Bytes
joined [] = []
joined (b ∷ bs) = b ++ joined bs

-- The bytes that arrive in a sequence of events, and how many commands are done.
unfoldable pub arriving : List Event → Bytes
unfolding joined
arriving [] = []
arriving (readable _ chunks ∷ es) = joined chunks ++ arriving es
arriving (completed ∷ es) = arriving es

unfoldable pub completions : List Event → ℕ
completions [] = 0
completions (readable _ _ ∷ es) = completions es
completions (completed ∷ es) = suc (completions es)

abbrev pub begin : ℕ → ℕ → ℕ → Run
begin fd gen now = record { conn = make_connection fd gen now; dispatched = [] }

module _ (can_reserve : ℕ → Bool) (max_recv_bytes : ℕ) where
  unfoldable pub run_events : List Event → Run → Outcome (Option Run)
  run_events [] r = returns (some r)
  run_events (completed ∷ es) r = run_events es (run_of r.dispatched (command_complete r.conn))
  run_events (readable now chunks ∷ es) r =
      elim (handle_read can_reserve max_recv_bytes now chunks drained r.conn) [
        | throws ↦ throws
        | returns k ↦ (elim k.0 [
          | none ↦ returns none
          | some c ↦ run_events es (record { conn = c; dispatched = hand_over k.1 r.dispatched })
        ])
      ]
