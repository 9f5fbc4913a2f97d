-- ===== src/Net/Flight.antt =====
-- Which commands of a connection are on their way: handed to the pool, and not yet reported back to
-- the reactor. A table of connections is in step with them if each connection has exactly one where
-- it is processing, and none where it is at rest.
use redis_cpp.Base.{
  ℕ, ◌+◌, ◌≤◌, ◌<◌, ◌≡◌, refl, sym, ◌∙◌, true, false, ◌&&◌, some, List, [], ◌∷◌, ◌++◌, ◌==◌,
  if◌then◌else◌, arith, ◌⊎◌, inl, inr, Bool-cases, subst, some-injective,
}
use redis_cpp.Net.Connection.{Connection, make_connection}
use redis_cpp.Net.Table.{lookup, put, erase, lookup-put, lookup-erase}

-- 1 for the key of a connection's life, its descriptor and generation, and 0 for any other.
abbrev pub one_at : ℕ → ℕ → ℕ → ℕ → ℕ
one_at fd gen j k = if (fd == j) && (gen == k) then 1 else 0

-- How many items of a list are for descriptor j and generation k.
module _ {ℓ} {A : Type ℓ} (fd_of gen_of : A → ℕ) where
  unfoldable pub tally : List A → ℕ → ℕ → ℕ
  tally [] j k = 0
  tally (x ∷ xs) j k = one_at (fd_of x) (gen_of x) j k + tally xs j k

  pub tally-append : (xs ys : List A) (j k : ℕ) → tally (xs ++ ys) j k ≡ tally xs j k + tally ys j k
  unfolding tally
  tally-append [] ys j k = omega arith
  tally-append (x ∷ xs) ys j k = omega (arith, tally-append xs ys j k)

-- A connection under the descriptor `fd`, with `n` commands on their way.
pub record InStep (g fd n : ℕ) (c : Connection) : Type 0 where
  pub own_fd : c.fd ≡ fd
  pub alive : c.alive ≡ true
  pub old : c.generation ≤ g
  pub count : n ≡ (if c.processing then 1 else 0)
  pub busy : (c.processing ≡ true) ⊎ (c.command_queue ≡ [])

-- The whole table. No command is on its way for a generation that is still to come.
pub record InFlight (m : List (ℕ × Connection)) (g : ℕ) (out : ℕ → ℕ → ℕ) : Type 0 where
  pub each : (fd : ℕ) (c : Connection) → lookup fd m ≡ some c → InStep g fd (out fd c.generation) c
  pub fresh : (fd gen : ℕ) → g < gen → out fd gen ≡ 0

module _ (m : List (ℕ × Connection)) (g : ℕ) (out : ℕ → ℕ → ℕ) (h : InFlight m g out) where
  -- Another way to count the same.
  pub InFlight-same : (out' : ℕ → ℕ → ℕ) → ((j k : ℕ) → out' j k ≡ out j k) → InFlight m g out'
  InFlight-same out' e = record {
    each = λ fd c p.
        let i = h.each fd c p in
        record {
          own_fd = i.own_fd;
          alive = i.alive;
          old = i.old;
          count = e fd c.generation ∙ i.count;
          busy = i.busy;
        };
    fresh = λ fd gen lt. e fd gen ∙ h.fresh fd gen lt;
  }

  pub InFlight-erase : (fd : ℕ) → InFlight (erase fd m) g out
  InFlight-erase fd = record {
    each = λ j c p. h.each j c (ground (arith, lookup-erase fd j m));
    fresh = h.fresh;
  }

  -- A new connection takes the next generation.
  pub InFlight-accept :
      (fd now : ℕ) → InFlight (put fd (make_connection fd (g + 1) now) m) (g + 1) out
  unfolding make_connection
  InFlight-accept fd now = record {
    each = λ j c p. elim (Bool-cases (fd == j)) [
      | inl e ↦
          new j c (ground arith)
            (rw e at (sym (lookup-put fd j (make_connection fd (g + 1) now) m) ∙ p))
      | inr e ↦ old j c (rw e at (sym (lookup-put fd j (make_connection fd (g + 1) now) m) ∙ p))
    ];
    fresh = λ j k lt. h.fresh j k (omega arith);
  }
    where
      new :
          (j : ℕ) (c : Connection)
          → fd ≡ j
          → some (make_connection fd (g + 1) now) ≡ some c
          → InStep (g + 1) j (out j c.generation) c
      new j c e q =
          subst (λ x. InStep (g + 1) j (out j x.generation) x) (some-injective q)
            (record {
              own_fd = e;
              alive = refl;
              old = omega arith;
              count = h.fresh j (g + 1) (omega arith);
              busy = inr refl;
            })

      old : (j : ℕ) (c : Connection) → lookup j m ≡ some c → InStep (g + 1) j (out j c.generation) c
      old j c q =
          let i = h.each j c q in
          record {
            own_fd = i.own_fd;
            alive = i.alive;
            old = omega arith;
            count = i.count;
            busy = i.busy;
          }

  -- A connection is replaced by a later state of itself, and the count changes for it alone.
  pub InFlight-put :
      (fd : ℕ) (c d : Connection) (out' : ℕ → ℕ → ℕ)
      → lookup fd m ≡ some c
      → d.generation ≡ c.generation
      → InStep g fd (out' fd c.generation) d
      → ((j k : ℕ) → one_at fd c.generation j k ≡ 0 → out' j k ≡ out j k)
      → InFlight (put fd d m) g out'
  InFlight-put fd c d out' p same i e = record {
    each = λ j x q. elim (Bool-cases (fd == j)) [
      | inl b ↦ own j x (ground arith) (rw b at (sym (lookup-put fd j d m) ∙ q))
      | inr b ↦ other j x b (rw b at (sym (lookup-put fd j d m) ∙ q))
    ];
    fresh = λ j k lt. e j k (later j k lt (h.each fd c p).old) ∙ h.fresh j k lt;
  }
    where
      own : (j : ℕ) (x : Connection) → fd ≡ j → some d ≡ some x → InStep g j (out' j x.generation) x
      own j x b q =
          subst (λ y. InStep g j (out' j y.generation) y) (some-injective q)
            (subst (λ n. InStep g j (out' j n) d) (sym same)
              (subst (λ n. InStep g n (out' n c.generation) d) b i))

      other :
          (j : ℕ) (x : Connection)
          → (fd == j) ≡ false
          → lookup j m ≡ some x
          → InStep g j (out' j x.generation) x
      other j x b q =
          let k = h.each j x q in
          record {
            own_fd = k.own_fd;
            alive = k.alive;
            old = k.old;
            count = e j x.generation (rw b refl) ∙ k.count;
            busy = k.busy;
          }

      later : (j k : ℕ) → g < k → c.generation ≤ g → one_at fd c.generation j k ≡ 0
      later j k lt le = ground arith
