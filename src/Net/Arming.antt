-- ===== src/Net/Arming.antt =====
-- EPOLLOUT through the handlers of src/net/EpollReactor.cpp: each leaves every connection with unsent
-- bytes watched for it.
use redis_cpp.Base.{
  ℕ, ◌+◌, ◌≡◌, refl, Bool, true, false, not, ◌||◌, Option, none, some, List, [], ◌∷◌, ◌++◌, Bytes,
  ◌==◌, if◌then◌else◌,
}
use redis_cpp.Resp.Parser.{Outcome, returns, throws}
use redis_cpp.Pool.Queue.{enqueue}
use redis_cpp.Net.Connection.{
  Connection, ReadEnd, handle_read, command_complete, Written, flush, send_enqueue,
}
use redis_cpp.Net.Sending.{unsent}
use redis_cpp.Net.Unsent.{handle_read-unsent, command_complete-unsent}
use redis_cpp.Net.Table.{lookup}
use redis_cpp.Net.Reactor.{
  Task, CommandComplete, PendingWrite, Reactor, Sent, with_pool, submit, store_conn, handle_close,
  after_read, handle_read_fd, complete_one, complete_all, process_completed_commands, after_flush,
  handle_write, after_reply, write_one, write_all, process_pending_writes, close_all, check_idle,
  idle_fds,
}
use redis_cpp.Net.Counts.{Holds}
use redis_cpp.Net.Armed.{
  IsArmed, handle_close-IsArmed, store_conn-IsArmed, after_flush-IsArmed, after_reply-IsArmed,
}

-- Every connection of the reactor.
abbrev pub AllArmed : Reactor → Type 0
AllArmed r = IsArmed r.conns r.interests

submit-AllArmed :
    (c : Connection) (task : Option (List Bytes)) (r : Reactor)
    → AllArmed r
    → Holds AllArmed (submit c task r)
unfolding submit enqueue
submit-AllArmed c none r h = h
submit-AllArmed c (some args) r h = by_stop r.pool.stop
  where
    handed : Task
    handed = record { fd = c.fd; gen = c.generation; args = args }

    by_stop :
        (b : Bool)
        → Holds AllArmed (
            with_pool r (
              if b
              then throws
              else returns (record r.pool { tasks = r.pool.tasks ++ handed ∷ [] })))
    by_stop true = tt
    by_stop false = h

after_read-AllArmed :
    (fd : ℕ) (c : Connection) (r : Reactor)
    → lookup fd r.conns ≡ some c
    → AllArmed r
    → (o : Outcome (Option Connection × Option (List Bytes)))
    → ((d : Connection) (task : Option (List Bytes))
        → o ≡ returns (some d, task)
        → unsent d ≡ unsent c)
    → Holds AllArmed (after_read fd c r o)
unfolding after_read
after_read-AllArmed fd c r p h throws f = tt
after_read-AllArmed fd c r p h (returns (none, task)) f = handle_close-IsArmed r h fd
after_read-AllArmed fd c r p h (returns (some d, task)) f =
    submit-AllArmed d task (store_conn fd d r) (store_conn-IsArmed r h fd c p d (f d task refl))

pub handle_read_fd-AllArmed :
    (can_reserve : ℕ → Bool) (most now : ℕ) (chunks : List Bytes) (end : ReadEnd) (fd : ℕ)
    (r : Reactor)
    → AllArmed r
    → Holds AllArmed (handle_read_fd can_reserve most now chunks end fd r)
unfolding handle_read_fd
handle_read_fd-AllArmed can_reserve most now chunks end fd r h = by_conn (lookup fd r.conns) refl
  where
    by_conn :
        (o : Option Connection)
        → lookup fd r.conns ≡ o
        → Holds AllArmed (elim o [
          | none ↦ returns r
          | some c ↦ after_read fd c r (handle_read can_reserve most now chunks end c)
        ])
    by_conn none p = h
    by_conn (some c) p =
        after_read-AllArmed fd c r p h (handle_read can_reserve most now chunks end c)
          (handle_read-unsent can_reserve most now chunks end c)

complete_one-AllArmed :
    (n : CommandComplete) (r : Reactor) → AllArmed r → Holds AllArmed (complete_one n r)
unfolding complete_one
complete_one-AllArmed n r h = by_conn (lookup n.fd r.conns) refl
  where
    next : Connection → Outcome Reactor
    next c = submit c (command_complete c).1 (store_conn n.fd (command_complete c).0 r)

    by_guard :
        (c : Connection)
        → lookup n.fd r.conns ≡ some c
        → (b : Bool) → Holds AllArmed (if b then returns r else next c)
    by_guard c p true = h
    by_guard c p false =
        submit-AllArmed c (command_complete c).1 (store_conn n.fd (command_complete c).0 r)
          (store_conn-IsArmed r h n.fd c p (command_complete c).0 (command_complete-unsent c))

    by_conn :
        (o : Option Connection)
        → lookup n.fd r.conns ≡ o
        → Holds AllArmed (elim o [
          | none ↦ returns r
          | some c ↦ if not c.alive || not (c.generation == n.gen) then returns r else next c
        ])
    by_conn none p = h
    by_conn (some c) p = by_guard c p (not c.alive || not (c.generation == n.gen))

complete_all-AllArmed :
    (ns : List CommandComplete) (r : Reactor) → AllArmed r → Holds AllArmed (complete_all ns r)
unfolding complete_all
complete_all-AllArmed [] r h = h
complete_all-AllArmed (n ∷ ns) r h =
    next (complete_all-AllArmed ns) (complete_one n r) (complete_one-AllArmed n r h)
  where
    next :
        ((s : Reactor) → AllArmed s → Holds AllArmed (complete_all ns s))
        → (o : Outcome Reactor) → Holds AllArmed o
        → Holds AllArmed (elim o [ throws ↦ throws | returns s ↦ complete_all ns s ])
    next rest throws u = tt
    next rest (returns s) k = rest s k

pub process_completed_commands-AllArmed :
    (r : Reactor) → AllArmed r → Holds AllArmed (process_completed_commands r)
unfolding process_completed_commands
process_completed_commands-AllArmed r h =
    complete_all-AllArmed r.completed_commands (record r { completed_commands = [] }) h

close_all-AllArmed : (fds : List ℕ) (r : Reactor) → AllArmed r → AllArmed (close_all fds r)
unfolding close_all
close_all-AllArmed [] r h = h
close_all-AllArmed (fd ∷ fds) r h =
    close_all-AllArmed fds (handle_close fd r) (handle_close-IsArmed r h fd)

pub check_idle-AllArmed :
    (now idle_timeout_s : ℕ) (r : Reactor) → AllArmed r → AllArmed (check_idle now idle_timeout_s r)
unfolding check_idle
check_idle-AllArmed now idle_timeout_s r h =
    close_all-AllArmed (idle_fds now idle_timeout_s r.conns) r h

pub handle_write-AllArmed :
    (kernel : ℕ → Written) (fd : ℕ) (r : Reactor)
    → AllArmed r
    → AllArmed (handle_write kernel fd r).0
unfolding handle_write
handle_write-AllArmed kernel fd r h = by_conn (lookup fd r.conns) refl
  where
    written : Connection → Reactor × List Sent
    written c =
        let (d, end, taken) = flush kernel c in
        (after_flush fd d end r, record { fd = fd; gen = c.generation; bytes = taken } ∷ [])

    chosen : Option Connection → Reactor × List Sent
    chosen none = (r, [])
    chosen (some c) = if not c.alive then (r, []) else written c

    by_alive :
        (c : Connection)
        → lookup fd r.conns ≡ some c
        → (b : Bool) → AllArmed (if b then (r, []) else written c).0
    by_alive c p true = h
    by_alive c p false = after_flush-IsArmed r h fd c p kernel (flush kernel c).1 refl

    by_conn : (o : Option Connection) → lookup fd r.conns ≡ o → AllArmed (chosen o).0
    by_conn none p = h
    by_conn (some c) p = by_alive c p (not c.alive)

write_one-AllArmed :
    (kernel : ℕ → Written) (has_memory : Bool) (w : PendingWrite) (r : Reactor)
    → AllArmed r
    → AllArmed (write_one kernel has_memory w r).0
unfolding write_one
write_one-AllArmed kernel has_memory w r h = by_conn (lookup w.fd r.conns) refl
  where
    written : Connection → Reactor × List Sent
    written c =
        let (d, end, taken) = flush kernel (send_enqueue w.bytes c) in
        (after_reply w.fd d end r, record { fd = w.fd; gen = w.gen; bytes = taken } ∷ [])

    chosen : Option Connection → Reactor × List Sent
    chosen none = (r, [])
    chosen (some c) =
        if not c.alive || not (c.generation == w.gen) || not has_memory then (r, []) else written c

    by_guard :
        (c : Connection)
        → lookup w.fd r.conns ≡ some c
        → (b : Bool) → AllArmed (if b then (r, []) else written c).0
    by_guard c p true = h
    by_guard c p false =
        after_reply-IsArmed r h w.fd c p kernel w.bytes (flush kernel (send_enqueue w.bytes c)).1
          refl

    by_conn : (o : Option Connection) → lookup w.fd r.conns ≡ o → AllArmed (chosen o).0
    by_conn none p = h
    by_conn (some c) p = by_guard c p (not c.alive || not (c.generation == w.gen) || not has_memory)

write_all-AllArmed :
    (kernel : ℕ → ℕ → Written) (has_memory : ℕ → Bool) (i : ℕ) (ws : List PendingWrite)
    (r : Reactor)
    → AllArmed r
    → AllArmed (write_all kernel has_memory i ws r).0
unfolding write_all
write_all-AllArmed kernel has_memory i [] r h = h
write_all-AllArmed kernel has_memory i (w ∷ ws) r h =
    write_all-AllArmed kernel has_memory (i + 1) ws (write_one (kernel i) (has_memory i) w r).0
      (write_one-AllArmed (kernel i) (has_memory i) w r h)

pub process_pending_writes-AllArmed :
    (kernel : ℕ → ℕ → Written) (has_memory : ℕ → Bool) (r : Reactor)
    → AllArmed r
    → AllArmed (process_pending_writes kernel has_memory r).0
unfolding process_pending_writes
process_pending_writes-AllArmed kernel has_memory r h =
    write_all-AllArmed kernel has_memory 0 r.pending_writes (record r { pending_writes = [] }) h
