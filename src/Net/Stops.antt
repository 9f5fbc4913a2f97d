-- ===== src/Net/Stops.antt =====
-- The byte of stop() ends `run` of src/net/EpollReactor.cpp.
use redis_cpp.Base.{
  ℕ, ◌≡◌, refl, ◌∙◌, subst, inl, inr, ◌⊎◌, Bool, true, false, List, [], ◌∷◌, ◌++◌, ◌==◌,
  if◌then◌else◌, arith, ltb, leb, ◌&&◌, ◌-◌,
}
use redis_cpp.Resp.Parser.{Outcome, returns, throws}
use redis_cpp.Net.Reactor.{
  Reactor, Sent, process_completed_commands, process_pending_writes, check_idle, handle_accept,
}
use redis_cpp.Net.Loop.{
  Config, Answers, Ready, State, read_pipe, drain_queues, handle_socket, handle_event,
  handle_events, iteration,
}
use redis_cpp.Net.Counts.{Holds}
use redis_cpp.Net.Frame.{
  Alone, process_pending_writes-Alone, process_completed_commands-Alone, check_idle-Alone,
}
use redis_cpp.Net.Run.{Moment, ready, left, halt_if, run_loop}

module _ (can_reserve : ℕ → Bool) (cfg : Config) where
  drain_queues-running :
      (a : Answers) (s : State)
      → Holds (λ (t : State). t.0.running ≡ s.0.running) (drain_queues a s)
  unfolding drain_queues
  drain_queues-running a (r, out) =
      by_end (process_completed_commands s) (process_completed_commands-Alone s)
    where
      s : Reactor
      s = (process_pending_writes a.kernel a.has_memory r).0

      by_end :
          (o : Outcome Reactor)
          → Holds (Alone (record s { completed_commands = [] })) o
          → Holds
              (λ (t : State). t.0.running ≡ r.running)
              (elim o [
                | throws ↦ throws
                | returns t ↦ returns (t, out ++ (process_pending_writes a.kernel a.has_memory r).1)
              ])
      by_end throws k = tt
      by_end (returns t) k =
          k.running ∙ (process_pending_writes-Alone a.kernel a.has_memory r).running

  -- The loop over the events is left only where the flag has been cleared.
  handle_event-left :
      (e : Ready) (s : State)
      → Holds
          (λ (t : State × Bool). t.1 ≡ true → t.0.0.running ≡ false)
          (handle_event can_reserve cfg e s)
  unfolding handle_event
  handle_event-left e (r, out) = by_fd (e.fd == cfg.stop_fd) (e.fd == cfg.listen_fd)
    where
      Left : Outcome (State × Bool) → Type 0
      Left o = Holds (λ (t : State × Bool). t.1 ≡ true → t.0.0.running ≡ false) o

      by_stop :
          (s : State) (b : Bool)
          → Left (
              if b
              then returns ((record s.0 { running = false }, s.1), true)
              else returns ((s.0, s.1), false))
      by_stop s true = λ q. refl
      by_stop s false = λ q. absurd cc

      on_pipe :
          (o : Outcome State)
          → Left (elim o [
            | throws ↦ throws
            | returns (s, out') ↦
                if read_pipe e.answers.pipe_reads
                then returns ((record s { running = false }, out'), true)
                else returns ((s, out'), false)
          ])
      on_pipe throws = tt
      on_pipe (returns s) = by_stop s (read_pipe e.answers.pipe_reads)

      on_socket :
          (o : Outcome State) → Left (elim o [ throws ↦ throws | returns t ↦ returns (t, false) ])
      on_socket throws = tt
      on_socket (returns t) = λ q. absurd cc

      by_fd :
          (is_stop is_listen : Bool)
          → Left (
              if is_stop
              then (elim (drain_queues e.answers (r, out)) [
                | throws ↦ throws
                | returns (s, out') ↦
                    if read_pipe e.answers.pipe_reads
                    then returns ((record s { running = false }, out'), true)
                    else returns ((s, out'), false)
              ])
              else if is_listen
              then returns ((handle_accept e.answers.now e.answers.accepted r, out), false)
              else (elim (handle_socket can_reserve cfg e (r, out)) [
                | throws ↦ throws
                | returns t ↦ returns (t, false)
              ]))
      by_fd true b = on_pipe (drain_queues e.answers (r, out))
      by_fd false true = λ q. absurd cc
      by_fd false false = on_socket (handle_socket can_reserve cfg e (r, out))

  -- An event of the pipe in which the byte of stop() is read, and such an event among others.
  abbrev pub IsStop : Ready → Type 0
  IsStop e = (e.fd ≡ cfg.stop_fd) × (read_pipe e.answers.pipe_reads ≡ true)

  abbrev pub HasStop : List Ready → Type 0
  HasStop [] = ⊥
  HasStop (e ∷ es) = IsStop e ⊎ HasStop es

  handle_event-IsStop :
      (e : Ready) (s : State)
      → IsStop e
      → Holds (λ (t : State × Bool). t.1 ≡ true) (handle_event can_reserve cfg e s)
  unfolding handle_event
  handle_event-IsStop e (r, out) h =
      let on_pipe : (e.fd == cfg.stop_fd) ≡ true = ground arith in
      rw on_pipe (by_end (drain_queues e.answers (r, out)))
    where
      by_end :
          (o : Outcome State)
          → Holds
              (λ (t : State × Bool). t.1 ≡ true)
              (elim o [
                | throws ↦ throws
                | returns (s, out') ↦
                    if read_pipe e.answers.pipe_reads
                    then returns ((record s { running = false }, out'), true)
                    else returns ((s, out'), false)
              ])
      by_end throws = tt
      by_end (returns s) = rw h.1 refl

  handle_events-HasStop :
      (es : List Ready) (s : State)
      → HasStop es
      → Holds (λ (t : State). t.0.running ≡ false) (handle_events can_reserve cfg es s)
  unfolding handle_events
  handle_events-HasStop [] s h = elim h [ ]
  handle_events-HasStop (e ∷ es) s h =
      by_end (handle_events-HasStop es) (handle_event can_reserve cfg e s) (handle_event-left e s)
        (by_event h)
    where
      Behind : Outcome (State × Bool) → Type 0
      Behind o = Holds (λ (t : State × Bool). (t.1 ≡ true) ⊎ HasStop es) o

      weaken : (o : Outcome (State × Bool)) → Holds (λ (t : State × Bool). t.1 ≡ true) o → Behind o
      weaken throws k = tt
      weaken (returns t) k = inl k

      later : HasStop es → (o : Outcome (State × Bool)) → Behind o
      later k throws = tt
      later k (returns t) = inr k

      by_event : IsStop e ⊎ HasStop es → Behind (handle_event can_reserve cfg e s)
      by_event (inl k) = weaken (handle_event can_reserve cfg e s) (handle_event-IsStop e s k)
      by_event (inr k) = later k (handle_event can_reserve cfg e s)

      by_end :
          ((t : State)
            → HasStop es
            → Holds (λ (t : State). t.0.running ≡ false) (handle_events can_reserve cfg es t))
          → (o : Outcome (State × Bool))
          → Holds (λ (t : State × Bool). t.1 ≡ true → t.0.0.running ≡ false) o
          → Behind o
          → Holds
              (λ (t : State). t.0.running ≡ false)
              (elim o [
                | throws ↦ throws
                | returns (t, true) ↦ returns t
                | returns (t, false) ↦ handle_events can_reserve cfg es t
              ])
      by_end rest throws k b = tt
      by_end rest (returns (t, true)) k b = k refl
      by_end rest (returns (t, false)) k (inl q) = absurd (apart q)
        where
          apart : false ≡ true → ⊥
          apart q = cc
      by_end rest (returns (t, false)) k (inr q) = rest t q

  iteration-HasStop :
      (es : List Ready) (a : Answers) (last_idle_check : ℕ) (s : State)
      → HasStop es
      → Holds
          (λ (t : State × ℕ). t.0.0.running ≡ false)
          (iteration can_reserve cfg es a last_idle_check s)
  unfolding iteration
  iteration-HasStop es a last_idle_check s h =
      by_events (handle_events can_reserve cfg es s) (handle_events-HasStop es s h)
    where
      due : Bool
      due = ltb 0 cfg.idle_timeout_s && leb 1 (a.now - last_idle_check)

      scan : Bool → State → State
      scan b (r, out) = if b then (check_idle a.now cfg.idle_timeout_s r, out) else (r, out)

      by_scan :
          (b : Bool) (r : Reactor) (out : List Sent)
          → r.running ≡ false
          → (scan b (r, out)).0.running ≡ false
      by_scan true r out k = (check_idle-Alone a.now cfg.idle_timeout_s r).running ∙ k
      by_scan false r out k = k

      by_drain :
          (t : State) (o : Outcome State)
          → Holds (λ (u : State). u.0.running ≡ t.0.running) o
          → t.0.running ≡ false
          → Holds
              (λ (t : State × ℕ). t.0.0.running ≡ false)
              (elim o [
                | throws ↦ throws
                | returns u ↦ returns (scan due u, if due then a.now else last_idle_check)
              ])
      by_drain t throws k q = tt
      by_drain t (returns (r, out)) k q = by_scan due r out (k ∙ q)

      by_events :
          (o : Outcome State)
          → Holds (λ (t : State). t.0.running ≡ false) o
          → Holds
              (λ (t : State × ℕ). t.0.0.running ≡ false)
              (elim o [
                | throws ↦ throws
                | returns t ↦ (elim (drain_queues a t) [
                  | throws ↦ throws
                  | returns u ↦ returns (scan due u, if due then a.now else last_idle_check)
                ])
              ])
      by_events throws k = tt
      by_events (returns t) k = by_drain t (drain_queues a t) (drain_queues-running a t) k

  halted : (b : Bool) (t : State) → t.0.running ≡ false → (halt_if b t).0.running ≡ false
  unfolding halt_if
  halted true t h = refl
  halted false t h = h

  -- Where the events of a round of the loop have one of the pipe in which the byte 'S' is read,
  -- and the round does not throw, the loop is left behind that round with the running flag
  -- cleared, whatever moments would follow and whether or not stop is called meanwhile.
  pub run_loop_stops :
      (es : List Ready) (a : Answers) (is_stopped : Bool) (ms : List Moment) (last_idle_check : ℕ)
      (s t : State) (checked : ℕ)
      → HasStop es
      → iteration can_reserve cfg es a last_idle_check s ≡ returns (t, checked)
      → (run_loop can_reserve cfg (ready es a is_stopped ∷ ms) last_idle_check s
          ≡ returns (halt_if is_stopped t, left))
        × ((halt_if is_stopped t).0.running ≡ false)
  unfolding run_loop
  run_loop_stops es a is_stopped ms last_idle_check s t checked h e =
      let q : t.0.running ≡ false =
        subst (Holds (λ (t : State × ℕ). t.0.0.running ≡ false)) e
          (iteration-HasStop es a last_idle_check s h) in
      let r = halted is_stopped t q in (rw (e, run_loop) (rw r refl), r)
