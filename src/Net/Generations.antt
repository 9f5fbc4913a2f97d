-- ===== src/Net/Generations.antt =====
-- The generation counter of src/net/EpollReactor.hpp: only an accepted connection moves it.
use redis_cpp.Base.{ℕ, ◌+◌, ◌≡◌, refl, ◌∙◌, Bool, Option, none, some, List, [], ◌∷◌, Bytes, arith}
use redis_cpp.Resp.Parser.{Outcome, returns, throws}
use redis_cpp.Pool.Queue.{enqueue}
use redis_cpp.Net.Connection.{Connection, ReadEnd, Written, FlushEnd, sent_all, more_pending, fatal}
use redis_cpp.Net.Reactor.{
  CommandComplete, PendingWrite, Reactor, submit, store_conn, handle_close, after_read,
  handle_read_fd, complete_one, complete_all, process_completed_commands, close_all, check_idle,
  idle_fds, after_flush, handle_write, after_reply, write_one, write_all, process_pending_writes,
}

pub handle_close-gen : (fd : ℕ) (r : Reactor) → (handle_close fd r).gen_counter ≡ r.gen_counter
unfolding handle_close
handle_close-gen fd r = ground arith

submit-gen :
    (c : Connection) (task : Option (List Bytes)) (r s : Reactor)
    → submit c task r ≡ returns s
    → s.gen_counter ≡ r.gen_counter
unfolding submit enqueue
submit-gen c none r s e = ground arith
submit-gen c (some args) r s e = ground arith

after_read-gen :
    (fd : ℕ) (c : Connection) (r s : Reactor)
    (o : Outcome (Option Connection × Option (List Bytes)))
    → after_read fd c r o ≡ returns s
    → s.gen_counter ≡ r.gen_counter
unfolding after_read
after_read-gen fd c r s throws e = ground arith
after_read-gen fd c r s (returns (none, task)) e = grind (arith, handle_close-gen fd r)
after_read-gen fd c r s (returns (some d, task)) e = submit-gen d task (store_conn fd d r) s e

pub handle_read_fd-gen :
    (can_reserve : ℕ → Bool) (most now : ℕ) (chunks : List Bytes) (end : ReadEnd) (fd : ℕ)
    (r s : Reactor)
    → handle_read_fd can_reserve most now chunks end fd r ≡ returns s
    → s.gen_counter ≡ r.gen_counter
unfolding handle_read_fd
handle_read_fd-gen can_reserve most now chunks end fd r s e = grind (arith, after_read-gen)

complete_one-gen :
    (n : CommandComplete) (r s : Reactor)
    → complete_one n r ≡ returns s
    → s.gen_counter ≡ r.gen_counter
unfolding complete_one
complete_one-gen n r s e = grind (arith, submit-gen)

complete_all-gen :
    (ns : List CommandComplete) (r s : Reactor)
    → complete_all ns r ≡ returns s
    → s.gen_counter ≡ r.gen_counter
unfolding complete_all
complete_all-gen [] r s e = ground arith
complete_all-gen (n ∷ ns) r s e = grind (arith, complete_all-gen ns, complete_one-gen)

pub process_completed_commands-gen :
    (r s : Reactor) → process_completed_commands r ≡ returns s → s.gen_counter ≡ r.gen_counter
unfolding process_completed_commands
process_completed_commands-gen r s e =
    complete_all-gen r.completed_commands (record r { completed_commands = [] }) s e

close_all-gen : (fds : List ℕ) (r : Reactor) → (close_all fds r).gen_counter ≡ r.gen_counter
unfolding close_all
close_all-gen [] r = refl
close_all-gen (fd ∷ fds) r = close_all-gen fds (handle_close fd r) ∙ handle_close-gen fd r

pub check_idle-gen :
    (now idle_timeout_s : ℕ) (r : Reactor)
    → (check_idle now idle_timeout_s r).gen_counter ≡ r.gen_counter
unfolding check_idle
check_idle-gen now idle_timeout_s r = close_all-gen (idle_fds now idle_timeout_s r.conns) r

after_flush-gen :
    (fd : ℕ) (c : Connection) (e : FlushEnd) (r : Reactor)
    → (after_flush fd c e r).gen_counter ≡ r.gen_counter
unfolding after_flush
after_flush-gen fd c sent_all r = refl
after_flush-gen fd c more_pending r = refl
after_flush-gen fd c fatal r = handle_close-gen fd (store_conn fd c r)

pub handle_write-gen :
    (kernel : ℕ → Written) (fd : ℕ) (r : Reactor)
    → (handle_write kernel fd r).0.gen_counter ≡ r.gen_counter
unfolding handle_write
handle_write-gen kernel fd r = grind (arith, after_flush-gen)

after_reply-gen :
    (fd : ℕ) (c : Connection) (e : FlushEnd) (r : Reactor)
    → (after_reply fd c e r).gen_counter ≡ r.gen_counter
unfolding after_reply
after_reply-gen fd c sent_all r = refl
after_reply-gen fd c more_pending r = refl
after_reply-gen fd c fatal r = handle_close-gen fd (store_conn fd c r)

write_one-gen :
    (kernel : ℕ → Written) (has_memory : Bool) (w : PendingWrite) (r : Reactor)
    → (write_one kernel has_memory w r).0.gen_counter ≡ r.gen_counter
unfolding write_one
write_one-gen kernel has_memory w r = grind (arith, after_reply-gen)

write_all-gen :
    (kernel : ℕ → ℕ → Written) (has_memory : ℕ → Bool) (i : ℕ) (ws : List PendingWrite)
    (r : Reactor)
    → (write_all kernel has_memory i ws r).0.gen_counter ≡ r.gen_counter
unfolding write_all
write_all-gen kernel has_memory i [] r = refl
write_all-gen kernel has_memory i (w ∷ ws) r =
    write_all-gen kernel has_memory (i + 1) ws (write_one (kernel i) (has_memory i) w r).0
    ∙ write_one-gen (kernel i) (has_memory i) w r

pub process_pending_writes-gen :
    (kernel : ℕ → ℕ → Written) (has_memory : ℕ → Bool) (r : Reactor)
    → (process_pending_writes kernel has_memory r).0.gen_counter ≡ r.gen_counter
unfolding process_pending_writes
process_pending_writes-gen kernel has_memory r =
    write_all-gen kernel has_memory 0 r.pending_writes (record r { pending_writes = [] })
