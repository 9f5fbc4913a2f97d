-- ===== src/Net/Counts.antt =====
-- The count of the commands on their way through what src/net/EpollReactor.cpp does to its
-- connections: a handler that hands a command over, or takes the notice of a completed one, keeps the
-- table in step. `extra` counts the commands that the workers hold.
use redis_cpp.Base.{
  ℕ, ◌+◌, ◌<◌, ◌≤◌, ◌%◌, ◌≡◌, refl, sym, ap₂, ◌∙◌, ◌⊎◌, Bool, true, false, Option, none, some, List,
  [], ◌∷◌, ◌++◌, Bytes, ◌==◌, if◌then◌else◌, arith, inl, inr, Bool-cases, subst,
}
use redis_cpp.Resp.Parser.{Outcome, returns, throws}
use redis_cpp.Pool.Queue.{enqueue}
use redis_cpp.Net.Connection.{Connection, make_connection, ReadEnd, handle_read}
use redis_cpp.Net.Table.{lookup, put, erase}
use redis_cpp.Net.Reactor.{
  epoll_del, Task, CommandComplete, Reactor, with_pool, submit, store_conn, handle_close,
  accept_one, after_read, handle_read_fd,
}
use redis_cpp.Net.Flight.{
  one_at, tally, tally-append, InFlight, InFlight-same, InFlight-erase, InFlight-accept,
  InFlight-put,
}
use redis_cpp.Net.Follows.{tasks_of, in_progress, Follows, Leaves, handle_read-Follows}

abbrev pub tasks_for : List Task → ℕ → ℕ → ℕ
tasks_for = tally (λ t. t.fd) (λ t. t.gen)

abbrev pub notices_for : List CommandComplete → ℕ → ℕ → ℕ
notices_for = tally (λ n. n.fd) (λ n. n.gen)

-- How many commands of a connection are on their way.
abbrev pub outstanding : (ℕ → ℕ → ℕ) → Reactor → ℕ → ℕ → ℕ
outstanding extra r j k =
    tasks_for r.pool.tasks j k + (notices_for r.completed_commands j k + extra j k)

abbrev pub Sound : (ℕ → ℕ → ℕ) → Reactor → Type 0
Sound extra r = InFlight r.conns r.gen_counter (outstanding extra r)

-- What holds of what a step returns, if it returns.
abbrev pub Holds : {A : Type 0} → (A → Type 0) → Outcome A → Type 0
Holds P throws = Unit
Holds P (returns a) = P a

abbrev pub added : Option (List Bytes) → ℕ → ℕ → ℕ → ℕ → ℕ
added none fd gen j k = 0
added (some args) fd gen j k = one_at fd gen j k

pub at_most_one : (b : Bool) → (if b then 1 else 0) ≤ 1
at_most_one true = omega arith
at_most_one false = omega arith

pub one_at_self : (fd gen : ℕ) → one_at fd gen fd gen ≡ 1
one_at_self fd gen = ground arith

pub one_at-cases : (a b j k : ℕ) → ((a ≡ j) × (b ≡ k)) ⊎ (one_at a b j k ≡ 0)
one_at-cases a b j k = elim (Bool-cases (a == j)) [
  | inr e ↦ inr (rw e refl)
  | inl e ↦ (elim (Bool-cases (b == k)) [
    | inr f ↦ inr (rw (e, f) refl)
    | inl f ↦ inl (ground arith, ground arith)
  ])
]

added_self : (task : Option (List Bytes)) (fd gen : ℕ) → added task fd gen fd gen ≡ tasks_of task
added_self none fd gen = refl
added_self (some args) fd gen = one_at_self fd gen

added_other :
    (task : Option (List Bytes)) (fd gen j k : ℕ)
    → one_at fd gen j k ≡ 0
    → added task fd gen j k ≡ 0
added_other none fd gen j k e = refl
added_other (some args) fd gen j k e = e

-- The connection under `fd` becomes `d`, a follower of the connection `b` that has `n` commands on
-- their way, and `task` joins them.
pub InFlight-follow :
    (m : List (ℕ × Connection)) (g : ℕ) (before out : ℕ → ℕ → ℕ)
    → InFlight m g before
    → (fd : ℕ) (c b d : Connection) (task : Option (List Bytes)) → lookup fd m ≡ some c
    → b.fd ≡ c.fd
    → b.generation ≡ c.generation
    → b.alive ≡ c.alive
    → Follows b d task
    → out fd c.generation ≡ in_progress b
    → ((j k : ℕ) → one_at fd c.generation j k ≡ 0 → out j k ≡ before j k)
    → InFlight (put fd d m) g (λ j k. added task fd c.generation j k + out j k)
InFlight-follow m g before out h fd c b d task p own gen live f count others =
    let i = h.each fd c p in
    let same : d.generation ≡ c.generation = f.generation ∙ gen in
    InFlight-put m g before h fd c d (λ j k. added task fd c.generation j k + out j k) p same
      (record {
        own_fd = f.fd ∙ own ∙ i.own_fd;
        alive = f.alive ∙ live ∙ i.alive;
        old = omega (arith, same, i.old);
        count = omega (arith, added_self task fd c.generation, count, f.count);
        busy = f.busy;
      })
      (λ j k e. omega (arith, added_other task fd c.generation j k e, others j k e))

mod_small : (n : ℕ) → n + 1 < 18446744073709551616 → (n + 1) % 18446744073709551616 ≡ n + 1
mod_small n h = omega arith

pub accept_one-gen :
    (now fd : ℕ) (r : Reactor)
    → r.gen_counter + 1 < 18446744073709551616
    → (accept_one now fd r).gen_counter ≡ r.gen_counter + 1
unfolding accept_one
accept_one-gen now fd r small = mod_small r.gen_counter small

module _ (extra : ℕ → ℕ → ℕ) where
  pub submit-Sound :
      (c : Connection) (task : Option (List Bytes)) (r : Reactor)
      → InFlight r.conns r.gen_counter
          (λ j k. added task c.fd c.generation j k + outstanding extra r j k)
      → Holds (Sound extra) (submit c task r)
  unfolding submit enqueue tally
  submit-Sound c none r h =
      InFlight-same r.conns r.gen_counter _ h (outstanding extra r) (λ j k. omega arith)
  submit-Sound c (some args) r h = by_stop r.pool.stop
    where
      handed : Task
      handed = record { fd = c.fd; gen = c.generation; args = args }

      by_stop :
          (b : Bool)
          → Holds (Sound extra) (
              with_pool r (
                if b
                then throws
                else returns (record r.pool { tasks = r.pool.tasks ++ handed ∷ [] })))
      by_stop true = tt
      by_stop false =
          InFlight-same r.conns r.gen_counter _ h
            (outstanding extra
              (record r { pool = record r.pool { tasks = r.pool.tasks ++ handed ∷ [] } }))
            (λ j k.
              omega (arith, tally-append (λ t. t.fd) (λ t. t.gen) r.pool.tasks (handed ∷ []) j k))

  pub handle_close-Sound : (fd : ℕ) (r : Reactor) → Sound extra r → Sound extra (handle_close fd r)
  unfolding handle_close
  handle_close-Sound fd r h = by_conn (lookup fd r.conns)
    where
      by_conn :
          (o : Option Connection)
          → Sound extra (elim o [
            | none ↦ r
            | some _ ↦ record r { conns = erase fd r.conns; interests = epoll_del fd r.interests }
          ])
      by_conn none = h
      by_conn (some c) = InFlight-erase r.conns r.gen_counter (outstanding extra r) h fd

  pub accept_one-Sound :
      (now fd : ℕ) (r : Reactor)
      → r.gen_counter + 1 < 18446744073709551616
      → Sound extra r
      → Sound extra (accept_one now fd r)
  unfolding accept_one
  accept_one-Sound now fd r small h =
      subst (λ g. InFlight (put fd (make_connection fd g now) r.conns) g (outstanding extra r))
        (sym (mod_small r.gen_counter small))
        (InFlight-accept r.conns r.gen_counter (outstanding extra r) h fd now)

  after_read-Sound :
      (fd : ℕ) (c : Connection) (r : Reactor)
      → lookup fd r.conns ≡ some c
      → Sound extra r
      → (o : Outcome (Option Connection × Option (List Bytes))) → Leaves (Follows c) o
      → Holds (Sound extra) (after_read fd c r o)
  unfolding after_read
  after_read-Sound fd c r p h throws f = tt
  after_read-Sound fd c r p h (returns (none, task)) f = handle_close-Sound fd r h
  after_read-Sound fd c r p h (returns (some d, task)) f = submit-Sound d task (store_conn fd d r) (
      InFlight-same (put fd d r.conns) r.gen_counter _
        (InFlight-follow r.conns r.gen_counter (outstanding extra r) (outstanding extra r) h fd c c
          d task p refl refl refl f (h.each fd c p).count (λ j k e. refl))
        _
        (λ j k.
          ap₂ (λ x y. added task x y j k + outstanding extra r j k) (f.fd ∙ (h.each fd c p).own_fd)
            f.generation))

  pub handle_read_fd-Sound :
      (can_reserve : ℕ → Bool) (most now : ℕ) (chunks : List Bytes) (end : ReadEnd) (fd : ℕ)
      (r : Reactor)
      → Sound extra r
      → Holds (Sound extra) (handle_read_fd can_reserve most now chunks end fd r)
  unfolding handle_read_fd
  handle_read_fd-Sound can_reserve most now chunks end fd r h = by_conn (lookup fd r.conns) refl
    where
      by_conn :
          (o : Option Connection)
          → lookup fd r.conns ≡ o
          → Holds (Sound extra) (elim o [
            | none ↦ returns r
            | some c ↦ after_read fd c r (handle_read can_reserve most now chunks end c)
          ])
      by_conn none p = h
      by_conn (some c) p =
          after_read-Sound fd c r p h (handle_read can_reserve most now chunks end c)
            (handle_read-Follows can_reserve most now chunks end c (h.each fd c p).alive)
