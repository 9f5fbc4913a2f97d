-- ===== src/Net/Heard.antt =====
-- No wake-up of the reactor is lost: what is in its lists has a byte in the pipe, or a thread that is
-- about to write one.
use redis_cpp.Base.{
  ℕ, ◌≡◌, ◌≢◌, refl, sym, ◌∙◌, subst, Bool, true, false, List, [], ◌∷◌, ◌++◌, if◌then◌else◌,
}
use redis_cpp.Resp.Parser.{Outcome, returns, throws}
use redis_cpp.Net.Reactor.{Reactor, process_completed_commands, Sent, handle_close, handle_read_fd}
use redis_cpp.Net.Loop.{Config, Ready, handle_socket, write_if, State}
use redis_cpp.Net.Counts.{Holds}
use redis_cpp.Net.Frame.{
  Alone, Alone-if, Alone-refl, Alone-trans, handle_close-Alone, handle_read_fd-Alone,
  handle_write-Alone, handle_accept-Alone, check_idle-Alone, process_pending_writes-Alone,
  process_completed_commands-Alone,
}
use redis_cpp.Net.Wake.{
  Phase, polling, woken, halfway, Waking, begin_send, begin_notify, write_owed, StopWrite,
  stop_attempts, stop_reactor, Step, sends, notifies, writes, stops, wakes, replies, completes,
  accepts, serves, idles, halts, Reached, here, next,
}

-- Nothing is on its way to the reactor's thread.
abbrev pub IsQuiet : Waking → Type 0
IsQuiet s = (s.owed ≡ []) × (s.pipe ≡ [])

-- What the lists hold at a phase where nothing is on its way.
abbrev Heard : Phase → Waking → Type 0
Heard polling s = IsQuiet s → (s.reactor.pending_writes ≡ []) × (s.reactor.completed_commands ≡ [])
Heard woken s = Unit {0}
Heard halfway s = IsQuiet s → s.reactor.pending_writes ≡ []

unquiet-Heard : (p : Phase) (s : Waking) → ¬ (IsQuiet s) → Heard p s
unquiet-Heard polling s h = λ q. absurd (h q)
unquiet-Heard woken s h = tt
unquiet-Heard halfway s h = λ q. absurd (h q)

-- A step that leaves the lists alone, and makes nothing quiet that was not.
same_lists :
    (p : Phase) (s t : Waking)
    → t.reactor.pending_writes ≡ s.reactor.pending_writes
    → t.reactor.completed_commands ≡ s.reactor.completed_commands
    → (IsQuiet t → IsQuiet s)
    → Heard p s
    → Heard p t
same_lists polling s t a b q h = λ k. (a ∙ (h (q k)).0, b ∙ (h (q k)).1)
same_lists woken s t a b q h = tt
same_lists halfway s t a b q h = λ k. a ∙ h (q k)

-- A handler of a socket, which leaves the lists and the pipe alone.
served :
    (s : Waking) (r : Reactor)
    → Alone s.reactor r
    → Heard s.phase s
    → Heard s.phase (record s { reactor = r })
served s r a h =
    same_lists s.phase s (record s { reactor = r }) a.pending_writes a.completed_commands (λ q. q) h

append-ne-nil : (xs : List ℕ) (x : ℕ) → xs ++ x ∷ [] ≢ []
append-ne-nil [] x e = cc
append-ne-nil (y ∷ xs) x e = cc

write_if-Alone : (e : Ready) (st : State) → Alone st.0 (write_if e st).0
unfolding write_if
write_if-Alone e (r, out) =
    Alone-if r _ (r, out) e.is_write (handle_write-Alone e.answers.written e.fd r) (Alone-refl r)

handle_socket-Alone :
    (can_reserve : ℕ → Bool) (cfg : Config) (e : Ready) (r : Reactor) (out : List Sent)
    → Holds (λ (t : State). Alone r t.0) (handle_socket can_reserve cfg e (r, out))
unfolding handle_socket
handle_socket-Alone can_reserve cfg e r out = by_flags e.is_error e.is_read
  where
    read : Outcome Reactor → Outcome State
    read o = elim o [ throws ↦ throws | returns s ↦ returns (write_if e (s, out)) ]

    got : Outcome Reactor
    got =
        handle_read_fd can_reserve cfg.max_recv_bytes e.answers.now e.answers.chunks
          e.answers.read_end e.fd r

    by_read :
        (o : Outcome Reactor) → Holds (Alone r) o → Holds (λ (t : State). Alone r t.0) (read o)
    by_read throws k = tt
    by_read (returns s) k = Alone-trans r s _ k (write_if-Alone e (s, out))

    by_flags :
        (is_error is_read : Bool)
        → Holds
            (λ (t : State). Alone r t.0)
            (if is_error
              then returns (handle_close e.fd r, out)
              else if is_read
              then read got
              else returns (write_if e (r, out)))
    by_flags true b = handle_close-Alone e.fd r
    by_flags false false = write_if-Alone e (r, out)
    by_flags false true = by_read got (
        handle_read_fd-Alone can_reserve cfg.max_recv_bytes e.answers.now e.answers.chunks
          e.answers.read_end e.fd r)

module _ (can_reserve : ℕ → Bool) (cfg : Config) where
  stop_reactor-Heard :
      (write : ℕ → StopWrite) (s : Waking) → Heard s.phase s → Heard s.phase (stop_reactor write s)
  unfolding stop_reactor
  stop_reactor-Heard write s h = by_end (stop_attempts 100 write 0)
    where
      after : Bool → Waking
      after b = record s {
        reactor = record s.reactor { running = false };
        pipe = if b then s.pipe ++ b'S' ∷ [] else s.pipe;
      }

      by_end : (b : Bool) → Heard s.phase (after b)
      by_end true = unquiet-Heard s.phase (after true) (λ q. append-ne-nil s.pipe b'S' q.1)
      by_end false = same_lists s.phase s (after false) refl refl (λ q. q) h

  begin-Heard :
      (s : Waking) (r : Reactor) (b : ℕ)
      → Heard s.phase (record s { reactor = r; owed = s.owed ++ b ∷ [] })
  begin-Heard s r b =
      unquiet-Heard s.phase (record s { reactor = r; owed = s.owed ++ b ∷ [] })
        (λ q. append-ne-nil s.owed b q.0)

  write_owed-Heard :
      (s : Waking) (before : List ℕ) (b : ℕ) (behind : List ℕ) (taken : Bool)
      → (taken ≡ false → s.pipe ≢ [])
      → Heard s.phase (write_owed before b behind taken s)
  unfolding write_owed
  write_owed-Heard s before b behind true full =
      unquiet-Heard s.phase _ (λ q. append-ne-nil s.pipe b q.1)
  write_owed-Heard s before b behind false full = unquiet-Heard s.phase _ (λ q. full refl q.1)

  completes-Heard :
      (s : Waking) (o : Outcome Reactor) (r : Reactor)
      → Holds (Alone (record s.reactor { completed_commands = [] })) o
      → o ≡ returns r
      → Heard halfway s
      → Heard polling (record s { reactor = r; phase = polling })
  completes-Heard s o r k e h =
      let a = subst (Holds (Alone (record s.reactor { completed_commands = [] }))) e k in
      λ q. (a.pending_writes ∙ h q, a.completed_commands)

  Step-Heard : {s t : Waking} → Step can_reserve cfg s t → Heard s.phase s → Heard t.phase t
  unfolding begin_send begin_notify stop_reactor write_owed
  Step-Heard {s} (sends fd gen bytes) h = begin-Heard s _ b'W'
  Step-Heard {s} (notifies fd gen) h = begin-Heard s _ b'C'
  Step-Heard {s} (writes before b behind taken owed full) h =
      write_owed-Heard s before b behind taken full
  Step-Heard {s} (stops write) h = stop_reactor-Heard write s h
  Step-Heard {s} (wakes read rest at_poll split) h = tt
  Step-Heard {s} (replies kernel has_memory not_half) h =
      λ q. (process_pending_writes-Alone kernel has_memory s.reactor).pending_writes
  Step-Heard {s} (completes r at_half e) h =
      completes-Heard s (process_completed_commands s.reactor) r
        (process_completed_commands-Alone s.reactor) e (subst (λ p. Heard p s) at_half h)
  Step-Heard {s} (accepts now fds at_poll) h = served s _ (handle_accept-Alone now fds s.reactor) h
  Step-Heard {s} (serves e r out at_poll got) h =
      served s r
        (subst (Holds (λ (t : State). Alone s.reactor t.0)) got
          (handle_socket-Alone can_reserve cfg e s.reactor []))
        h
  Step-Heard {s} (idles now at_poll) h =
      served s _ (check_idle-Alone now cfg.idle_timeout_s s.reactor) h
  Step-Heard {s} (halts at_poll) h = same_lists s.phase s _ refl refl (λ q. q) h

  Reached-Heard : {s t : Waking} → Reached can_reserve cfg s t → Heard s.phase s → Heard t.phase t
  Reached-Heard here h = h
  Reached-Heard (next r x) h = Step-Heard x (Reached-Heard r h)

  -- Take a system with both lists empty and the reactor's thread between two events, and any
  -- steps from it: a thread's section of send or notify_command_complete, its write of a byte to
  -- the pipe, which fails only where the pipe is not empty, stop(), and what the reactor's thread
  -- does, with process_pending_writes and process_completed_commands behind each read of the
  -- pipe. Where that thread is again between two events, the pipe is empty and no thread has a
  -- byte left to write, both lists are empty.
  pub no_wake_up_lost :
      (s t : Waking)
      → s.phase ≡ polling
      → s.reactor.pending_writes ≡ []
      → s.reactor.completed_commands ≡ []
      → Reached can_reserve cfg s t
      → t.phase ≡ polling
      → t.owed ≡ []
      → t.pipe ≡ []
      → (t.reactor.pending_writes ≡ []) × (t.reactor.completed_commands ≡ [])
  no_wake_up_lost s t start none_pending none_completed reach end owed pipe =
      let new : Heard s.phase s =
        subst (λ p. Heard p s) (sym start) (λ q. (none_pending, none_completed)) in
      subst (λ p. Heard p t) end (Reached-Heard reach new) (owed, pipe)
