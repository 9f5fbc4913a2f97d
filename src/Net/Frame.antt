-- ===== src/Net/Frame.antt =====
-- What the handlers of src/net/EpollReactor.cpp that serve a socket leave alone: the two lists that the
-- workers fill, and the flag of the loop.
use redis_cpp.Base.{
  ℕ, ◌+◌, ◌≡◌, refl, ◌∙◌, Bool, true, false, Option, none, some, List, [], ◌∷◌, ◌++◌, Bytes,
  if◌then◌else◌, arith, inl, inr, Option-cases, Bool-cases, not, ◌||◌, ◌==◌,
}
use redis_cpp.Resp.Parser.{Outcome, returns, throws}
use redis_cpp.Pool.Queue.{enqueue}
use redis_cpp.Net.Connection.{
  Connection, ReadEnd, Written, FlushEnd, sent_all, more_pending, fatal, flush, send_enqueue,
  command_complete,
}
use redis_cpp.Net.Table.{lookup}
use redis_cpp.Net.Reactor.{
  Reactor, PendingWrite, CommandComplete, accept_one, handle_accept, handle_read_fd, handle_close,
  handle_write, after_read, after_flush, after_reply, submit, store_conn, write_one, write_all,
  process_pending_writes, complete_one, complete_all, process_completed_commands, idle_fds,
  close_all, check_idle, Sent,
}
use redis_cpp.Net.Counts.{Holds}

pub record Alone (r s : Reactor) : Type 0 where
  pub pending_writes : s.pending_writes ≡ r.pending_writes
  pub completed_commands : s.completed_commands ≡ r.completed_commands
  pub running : s.running ≡ r.running

pub Alone-refl : (r : Reactor) → Alone r r
Alone-refl r = record { pending_writes = refl; completed_commands = refl; running = refl }

pub Alone-trans : (r s t : Reactor) → Alone r s → Alone s t → Alone r t
Alone-trans r s t h k = record {
  pending_writes = k.pending_writes ∙ h.pending_writes;
  completed_commands = k.completed_commands ∙ h.completed_commands;
  running = k.running ∙ h.running;
}

pub handle_close-Alone : (fd : ℕ) (r : Reactor) → Alone r (handle_close fd r)
unfolding handle_close
handle_close-Alone fd r = ground arith

accept_one-Alone : (now fd : ℕ) (r : Reactor) → Alone r (accept_one now fd r)
unfolding accept_one
accept_one-Alone now fd r = ground arith

pub handle_accept-Alone : (now : ℕ) (fds : List ℕ) (r : Reactor) → Alone r (handle_accept now fds r)
unfolding handle_accept
handle_accept-Alone now [] r = Alone-refl r
handle_accept-Alone now (fd ∷ fds) r =
    Alone-trans r (accept_one now fd r) _ (accept_one-Alone now fd r)
      (handle_accept-Alone now fds (accept_one now fd r))

pub submit-Alone :
    (c : Connection) (o : Option (List Bytes)) (r : Reactor) → Holds (Alone r) (submit c o r)
unfolding submit enqueue
submit-Alone c none r = Alone-refl r
submit-Alone c (some args) r = by_flag r.pool.stop
  where
    by_flag :
        (b : Bool)
        → Holds
            (Alone r)
            (elim (if b
              then throws
              else returns (record r.pool {
                tasks = r.pool.tasks ++ record { fd = c.fd; gen = c.generation; args = args } ∷ [];
              })) [ returns p ↦ returns (record r { pool = p }) | throws ↦ throws ])
    by_flag true = tt
    by_flag false = ground arith

after_flush-Alone :
    (fd : ℕ) (c : Connection) (end : FlushEnd) (r : Reactor) → Alone r (after_flush fd c end r)
unfolding after_flush
after_flush-Alone fd c sent_all r = ground arith
after_flush-Alone fd c more_pending r = ground arith
after_flush-Alone fd c fatal r = ground (arith, handle_close-Alone fd (store_conn fd c r))

after_reply-Alone :
    (fd : ℕ) (c : Connection) (end : FlushEnd) (r : Reactor) → Alone r (after_reply fd c end r)
unfolding after_reply
after_reply-Alone fd c sent_all r = ground arith
after_reply-Alone fd c more_pending r = ground arith
after_reply-Alone fd c fatal r = ground (arith, handle_close-Alone fd (store_conn fd c r))

-- Two ways to go on, with what they have sent.
pub Alone-if :
    (r : Reactor) (x y : Reactor × List Sent) (b : Bool)
    → Alone r x.0
    → Alone r y.0
    → Alone r (if b then x else y).0
Alone-if r x y true h k = h
Alone-if r x y false h k = k

pub handle_write-Alone :
    (kernel : ℕ → Written) (fd : ℕ) (r : Reactor) → Alone r (handle_write kernel fd r).0
unfolding handle_write
handle_write-Alone kernel fd r = elim (Option-cases (lookup fd r.conns)) [
  | inl e ↦ rw (e, handle_write) (Alone-refl r)
  | inr (c, e) ↦
      rw (e, handle_write)
        (Alone-if r _ _ (not c.alive) (Alone-refl r)
          (after_flush-Alone fd (flush kernel c).0 (flush kernel c).1 r))
]

write_one-Alone :
    (kernel : ℕ → Written) (has_memory : Bool) (w : PendingWrite) (r : Reactor)
    → Alone r (write_one kernel has_memory w r).0
unfolding write_one
write_one-Alone kernel has_memory w r = elim (Option-cases (lookup w.fd r.conns)) [
  | inl e ↦ rw (e, write_one) (Alone-refl r)
  | inr (c, e) ↦
      (let o = flush kernel (send_enqueue w.bytes c) in
        rw (e, write_one)
          (Alone-if r _ _ (not c.alive || not (c.generation == w.gen) || not has_memory)
            (Alone-refl r) (after_reply-Alone w.fd o.0 o.1 r)))
]

write_all-Alone :
    (kernel : ℕ → ℕ → Written) (has_memory : ℕ → Bool) (i : ℕ) (ws : List PendingWrite)
    (r : Reactor)
    → Alone r (write_all kernel has_memory i ws r).0
unfolding write_all
write_all-Alone kernel has_memory i [] r = Alone-refl r
write_all-Alone kernel has_memory i (w ∷ ws) r =
    let s = (write_one (kernel i) (has_memory i) w r).0 in
    Alone-trans r s _ (write_one-Alone (kernel i) (has_memory i) w r)
      (write_all-Alone kernel has_memory (i + 1) ws s)

-- process_pending_writes empties its list, and leaves the other and the flag.
pub process_pending_writes-Alone :
    (kernel : ℕ → ℕ → Written) (has_memory : ℕ → Bool) (r : Reactor)
    → Alone (record r { pending_writes = [] }) (process_pending_writes kernel has_memory r).0
unfolding process_pending_writes
process_pending_writes-Alone kernel has_memory r =
    write_all-Alone kernel has_memory 0 r.pending_writes (record r { pending_writes = [] })

close_all-Alone : (fds : List ℕ) (r : Reactor) → Alone r (close_all fds r)
unfolding close_all
close_all-Alone [] r = Alone-refl r
close_all-Alone (fd ∷ fds) r =
    Alone-trans r (handle_close fd r) _ (handle_close-Alone fd r)
      (close_all-Alone fds (handle_close fd r))

pub check_idle-Alone :
    (now idle_timeout_s : ℕ) (r : Reactor) → Alone r (check_idle now idle_timeout_s r)
unfolding check_idle
check_idle-Alone now idle_timeout_s r = close_all-Alone (idle_fds now idle_timeout_s r.conns) r

-- A sequence of two calls, of which the first may throw.
Holds-then :
    (r s : Reactor) → Alone r s → (o : Outcome Reactor) → Holds (Alone s) o → Holds (Alone r) o
Holds-then r s h throws k = tt
Holds-then r s h (returns t) k = Alone-trans r s t h k

store_conn-Alone : (fd : ℕ) (c : Connection) (r : Reactor) → Alone r (store_conn fd c r)
store_conn-Alone fd c r = ground arith

after_read-Alone :
    (fd : ℕ) (c : Connection) (r : Reactor) (o : Outcome (Option Connection × Option (List Bytes)))
    → Holds (Alone r) (after_read fd c r o)
unfolding after_read
after_read-Alone fd c r throws = tt
after_read-Alone fd c r (returns (none, task)) = handle_close-Alone fd r
after_read-Alone fd c r (returns (some d, task)) =
    Holds-then r (store_conn fd d r) (store_conn-Alone fd d r) _
      (submit-Alone d task (store_conn fd d r))

pub handle_read_fd-Alone :
    (can_reserve : ℕ → Bool) (most now : ℕ) (chunks : List Bytes) (end : ReadEnd) (fd : ℕ)
    (r : Reactor)
    → Holds (Alone r) (handle_read_fd can_reserve most now chunks end fd r)
unfolding handle_read_fd
handle_read_fd-Alone can_reserve most now chunks end fd r =
    elim (Option-cases (lookup fd r.conns)) [
      | inl e ↦ rw (e, handle_read_fd) (Alone-refl r)
      | inr (c, e) ↦ rw (e, handle_read_fd) (after_read-Alone fd c r _)
    ]

complete_one-Alone : (n : CommandComplete) (r : Reactor) → Holds (Alone r) (complete_one n r)
unfolding complete_one
complete_one-Alone n r = elim (Option-cases (lookup n.fd r.conns)) [
  | inl e ↦ rw (e, complete_one) (Alone-refl r)
  | inr (c, e) ↦
      rw (e, complete_one)
        (elim (Bool-cases (not c.alive || not (c.generation == n.gen))) [
          | inl b ↦ rw b (Alone-refl r)
          | inr b ↦ rw b (
              Holds-then r (store_conn n.fd (command_complete c).0 r)
                (store_conn-Alone n.fd (command_complete c).0 r) _
                (submit-Alone c (command_complete c).1 _))
        ])
]

complete_all-Alone : (ns : List CommandComplete) (r : Reactor) → Holds (Alone r) (complete_all ns r)
unfolding complete_all
complete_all-Alone [] r = Alone-refl r
complete_all-Alone (n ∷ ns) r =
    by_end (complete_all-Alone ns) (complete_one n r) (complete_one-Alone n r)
  where
    by_end :
        ((s : Reactor) → Holds (Alone s) (complete_all ns s))
        → (o : Outcome Reactor) → Holds (Alone r) o
        → Holds (Alone r) (elim o [ throws ↦ throws | returns s ↦ complete_all ns s ])
    by_end rest throws k = tt
    by_end rest (returns s) k = Holds-then r s k (complete_all ns s) (rest s)

-- process_completed_commands empties its list, and leaves the other and the flag.
pub process_completed_commands-Alone :
    (r : Reactor)
    → Holds (Alone (record r { completed_commands = [] })) (process_completed_commands r)
unfolding process_completed_commands
process_completed_commands-Alone r =
    complete_all-Alone r.completed_commands (record r { completed_commands = [] })
