-- ===== src/Server/Steps.antt =====
-- What the steps of the whole system keep, if the handlers and the workers keep it.
use redis_cpp.Base.{ℕ, ◌+◌, ◌≡◌, Bool, List, [], ◌∷◌, subst, arith}
use redis_cpp.Resp.Parser.{Outcome, returns, throws}
use redis_cpp.Commands.Command.{Times}
use redis_cpp.Net.Reactor.{Reactor, process_completed_commands}
use redis_cpp.Net.Loop.{Config, State, handle_event}
use redis_cpp.Net.Counts.{Holds}
use redis_cpp.Server.Events.{HandlerLaws, handle_event-keeps}
use redis_cpp.Server.System.{
  Work, Action, handles, flushes_pending, completes_pending, idles, works, executes, finishes,
  System, with_state, take_task, execute_nth, finish_nth, perform, perform_all, accepted_in,
}

-- A statement of the reactor and of what the workers hold.
abbrev pub At : (List Work → ℕ → Reactor → Type 0) → ℕ → System → Type 0
At P n s = P s.working n s.reactor

pub record StepLaws (P : List Work → ℕ → Reactor → Type 0) : Type 0 where
  pub handlers : (held : List Work) → HandlerLaws (P held)
  pub takes : (n : ℕ) (s : System) → At P n s → At P n (take_task s)
  pub runs : (i : ℕ) (t : Times) (n : ℕ) (s : System) → At P n s → At P n (execute_nth i t s)
  pub notifies : (i n : ℕ) (s : System) → At P n s → At P n (finish_nth i s)

module _ (P : List Work → ℕ → Reactor → Type 0) (laws : StepLaws P) (can_reserve : ℕ → Bool)
    (cfg : Config) where
  perform-keeps :
      (a : Action) (n : ℕ) (s : System)
      → At P (accepted_in (a ∷ []) + n) s
      → Holds (At P n) (perform can_reserve cfg a s)
  unfolding perform accepted_in
  perform-keeps (handles e) n s h = by_end (handle_event can_reserve cfg e (s.reactor, s.sent)) (
      handle_event-keeps (P s.working) (laws.handlers s.working) can_reserve cfg e n
        (s.reactor, s.sent) (subst (λ x. P s.working x s.reactor) (omega arith) h))
    where
      by_end :
          (o : Outcome (State × Bool))
          → Holds (λ (t : State × Bool). P s.working n t.0.0) o
          → Holds (At P n) (elim o [ throws ↦ throws | returns (t, _) ↦ returns (with_state s t) ])
      by_end throws k = tt
      by_end (returns (t, b)) k = k
  perform-keeps (flushes_pending a) n s h =
      (laws.handlers s.working).replies a.kernel a.has_memory n s.reactor
        (subst (λ x. P s.working x s.reactor) (omega arith) h)
  perform-keeps completes_pending n s h = by_end (process_completed_commands s.reactor) (
      (laws.handlers s.working).completes n s.reactor
        (subst (λ x. P s.working x s.reactor) (omega arith) h))
    where
      by_end :
          (o : Outcome Reactor)
          → Holds (P s.working n) o
          → Holds
              (At P n)
              (elim o [ throws ↦ throws | returns r ↦ returns (record s { reactor = r }) ])
      by_end throws k = tt
      by_end (returns r) k = k
  perform-keeps (idles now) n s h =
      (laws.handlers s.working).idles now cfg.idle_timeout_s n s.reactor
        (subst (λ x. P s.working x s.reactor) (omega arith) h)
  perform-keeps works n s h = laws.takes n s (subst (λ x. At P x s) (omega arith) h)
  perform-keeps (executes i t) n s h = laws.runs i t n s (subst (λ x. At P x s) (omega arith) h)
  perform-keeps (finishes i) n s h = laws.notifies i n s (subst (λ x. At P x s) (omega arith) h)

  accepted_in-cons :
      (a : Action) (rest : List Action)
      → accepted_in (a ∷ rest) ≡ accepted_in (a ∷ []) + accepted_in rest
  unfolding accepted_in
  accepted_in-cons (handles e) rest = omega arith
  accepted_in-cons (flushes_pending a) rest = omega arith
  accepted_in-cons completes_pending rest = omega arith
  accepted_in-cons (idles now) rest = omega arith
  accepted_in-cons works rest = omega arith
  accepted_in-cons (executes n t) rest = omega arith
  accepted_in-cons (finishes n) rest = omega arith

  perform_all-keeps :
      (rest : List Action) (s : System)
      → At P (accepted_in rest) s
      → Holds (At P 0) (perform_all can_reserve cfg rest s)
  unfolding perform_all accepted_in
  perform_all-keeps [] s h = h
  perform_all-keeps (a ∷ rest) s h =
      next (perform_all-keeps rest) (perform can_reserve cfg a s)
        (perform-keeps a (accepted_in rest) s (subst (λ x. At P x s) (accepted_in-cons a rest) h))
    where
      next :
          ((t : System)
            → At P (accepted_in rest) t
            → Holds (At P 0) (perform_all can_reserve cfg rest t))
          → (o : Outcome System) → Holds (At P (accepted_in rest)) o
          → Holds
              (At P 0)
              (elim o [ throws ↦ throws | returns t ↦ perform_all can_reserve cfg rest t ])
      next f throws k = tt
      next f (returns t) k = f t k

  -- What holds of every system that is reached.
  pub reached-keeps :
      (actions : List Action) (s t : System)
      → At P (accepted_in actions) s
      → perform_all can_reserve cfg actions s ≡ returns t
      → At P 0 t
  reached-keeps actions s t h e = subst (Holds (At P 0)) e (perform_all-keeps actions s h)
