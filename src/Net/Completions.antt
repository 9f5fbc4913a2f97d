-- ===== src/Net/Completions.antt =====
-- The count of the commands on their way through process_completed_commands: a notice is taken, and
-- the connection's next command takes its place.
use redis_cpp.Base.{
  ℕ, ◌+◌, ◌≡◌, refl, sym, ap, ◌∙◌, some-injective, Bool, true, false, not, ◌||◌, Option, none, some,
  List, [], ◌∷◌, ◌==◌, if◌then◌else◌, arith, inl, inr, subst,
}
use redis_cpp.Resp.Parser.{Outcome, returns, throws}
use redis_cpp.Net.Connection.{Connection, command_complete}
use redis_cpp.Net.Table.{lookup, put}
use redis_cpp.Net.Reactor.{
  CommandComplete, Reactor, submit, store_conn, handle_close, complete_one, complete_all,
  process_completed_commands, close_all, check_idle, idle_fds,
}
use redis_cpp.Net.Flight.{one_at, tally, InFlight-same}
use redis_cpp.Net.Counts.{
  notices_for, outstanding, Sound, Holds, at_most_one, added, one_at_self, one_at-cases,
  InFlight-follow, submit-Sound, handle_close-Sound,
}
use redis_cpp.Net.Follows.{command_complete-Follows}

-- The notice of one command is taken: its count goes from `extra` to the connection.
module _ (extra : ℕ → ℕ → ℕ) (n : CommandComplete) (r : Reactor) where
  -- A connection has one command at most on its way, so none is left behind the one that is done.
  none_left :
      (c : Connection)
      → c.generation ≡ n.gen
      → outstanding (λ j k. one_at n.fd n.gen j k + extra j k) r n.fd c.generation
        ≡ (if c.processing then 1 else 0)
      → outstanding extra r n.fd c.generation ≡ 0
  none_left c e count = omega (
    arith,
    count,
    at_most_one c.processing,
    subst (λ k. one_at n.fd n.gen n.fd k ≡ 1) (sym e) (one_at_self n.fd n.gen),
  )

  off :
      (j k : ℕ) (c : Connection)
      → c.generation ≡ n.gen
      → one_at n.fd c.generation j k ≡ 0
      → one_at n.fd n.gen j k ≡ 0
  off j k c e z = subst (λ x. one_at n.fd x j k ≡ 0) e z

  complete_one-Sound :
      Sound (λ j k. one_at n.fd n.gen j k + extra j k) r → Holds (Sound extra) (complete_one n r)
  unfolding complete_one
  complete_one-Sound h = by_conn (lookup n.fd r.conns) refl
    where
      stale :
          ((c : Connection) → lookup n.fd r.conns ≡ some c → c.generation ≡ n.gen → ⊥)
          → Sound extra r
      stale not_live = record {
        each = λ fd c p.
            let i = h.each fd c p in
            record {
              own_fd = i.own_fd;
              alive = i.alive;
              old = i.old;
              count = elim (one_at-cases n.fd n.gen fd c.generation) [
                | inl (a, b) ↦
                    absurd (not_live c (subst (λ j. lookup j r.conns ≡ some c) (sym a) p) (sym b))
                | inr z ↦ omega (arith, z, i.count)
              ];
              busy = i.busy;
            };
        fresh = λ fd gen lt. omega (arith, h.fresh fd gen lt);
      }

      current :
          (c : Connection)
          → lookup n.fd r.conns ≡ some c
          → c.generation ≡ n.gen
          → Holds
              (Sound extra)
              (submit c (command_complete c).1 (store_conn n.fd (command_complete c).0 r))
      current c p e =
          let i = h.each n.fd c p in
          let f = command_complete-Follows c in
          let task = (command_complete c).1 in
          submit-Sound extra c task (store_conn n.fd (command_complete c).0 r) (
            InFlight-same (put n.fd (command_complete c).0 r.conns) r.gen_counter _
              (InFlight-follow r.conns r.gen_counter
                (outstanding (λ j k. one_at n.fd n.gen j k + extra j k) r) (outstanding extra r) h
                n.fd c (record c { processing = false }) (command_complete c).0 task p refl refl
                refl f (none_left c e i.count) (λ j k z. omega (arith, off j k c e z)))
              _ (λ j k. ap (λ x. added task x c.generation j k + outstanding extra r j k) i.own_fd))

      by_match :
          (c : Connection)
          → lookup n.fd r.conns ≡ some c
          → (a b : Bool) → a ≡ true
          → (b ≡ true → c.generation ≡ n.gen)
          → (b ≡ false → c.generation ≡ n.gen → ⊥)
          → Holds (Sound extra) (
              if not a || not b
              then returns r
              else submit c (command_complete c).1 (store_conn n.fd (command_complete c).0 r))
      by_match c p false b e current_gen old_gen = absurd cc
      by_match c p true true e current_gen old_gen = current c p (current_gen refl)
      by_match c p true false e current_gen old_gen = stale (λ d q same.
          old_gen refl (subst (λ x. x.generation ≡ n.gen) (some-injective (sym q ∙ p)) same))

      by_conn :
          (o : Option Connection)
          → lookup n.fd r.conns ≡ o
          → Holds (Sound extra) (elim o [
            | none ↦ returns r
            | some c ↦
                if not c.alive || not (c.generation == n.gen)
                then returns r
                else submit c (command_complete c).1 (store_conn n.fd (command_complete c).0 r)
          ])
      by_conn none p = stale (λ c q same. absurd cc)
      by_conn (some c) p =
          by_match c p c.alive (c.generation == n.gen) (h.each n.fd c p).alive (λ e. ground arith)
            (λ e same. ground arith)

module _ (extra : ℕ → ℕ → ℕ) where
  complete_all-Sound :
      (ns : List CommandComplete) (r : Reactor)
      → Sound (λ j k. notices_for ns j k + extra j k) r
      → Holds (Sound extra) (complete_all ns r)
  unfolding complete_all tally
  complete_all-Sound [] r h =
      InFlight-same r.conns r.gen_counter _ h (outstanding extra r) (λ j k. omega arith)
  complete_all-Sound (n ∷ ns) r h = next (complete_all-Sound ns) (complete_one n r) (
      complete_one-Sound (λ j k. notices_for ns j k + extra j k) n r
        (InFlight-same r.conns r.gen_counter _ h _ (λ j k. omega arith)))
    where
      next :
          ((s : Reactor)
            → Sound (λ j k. notices_for ns j k + extra j k) s
            → Holds (Sound extra) (complete_all ns s))
          → (o : Outcome Reactor) → Holds (Sound (λ j k. notices_for ns j k + extra j k)) o
          → Holds (Sound extra) (elim o [ throws ↦ throws | returns s ↦ complete_all ns s ])
      next rest throws u = tt
      next rest (returns s) k = rest s k

  pub process_completed_commands-Sound :
      (r : Reactor) → Sound extra r → Holds (Sound extra) (process_completed_commands r)
  unfolding process_completed_commands tally
  process_completed_commands-Sound r h =
      complete_all-Sound r.completed_commands (record r { completed_commands = [] })
        (InFlight-same r.conns r.gen_counter _ h _ (λ j k. omega arith))

  close_all-Sound : (fds : List ℕ) (r : Reactor) → Sound extra r → Sound extra (close_all fds r)
  unfolding close_all
  close_all-Sound [] r h = h
  close_all-Sound (fd ∷ fds) r h =
      close_all-Sound fds (handle_close fd r) (handle_close-Sound extra fd r h)

  pub check_idle-Sound :
      (now idle_timeout_s : ℕ) (r : Reactor)
      → Sound extra r
      → Sound extra (check_idle now idle_timeout_s r)
  unfolding check_idle
  check_idle-Sound now idle_timeout_s r h =
      close_all-Sound (idle_fds now idle_timeout_s r.conns) r h
