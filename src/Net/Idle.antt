-- ===== src/Net/Idle.antt =====
-- The idle scan of src/net/EpollReactor.cpp closes the idle connections and no other.
use redis_cpp.Base.{
  ◌+◌, ℕ, ◌≡◌, refl, ap, ◌∙◌, Bool, true, false, ◌||◌, ◌&&◌, Option, none, some, List, [], ◌∷◌, leb,
  ◌==◌, if◌then◌else◌, arith, Bool-cases, inl, inr,
}
use redis_cpp.Net.Connection.{Connection}
use redis_cpp.Net.Table.{lookup, put, erase, lookup-put, lookup-erase}
use redis_cpp.Net.Reactor.{Reactor, handle_close, idle_fds, close_all, check_idle}

-- Every descriptor of the table stands in it once.
module _ {ℓ} {A : Type ℓ} where
  unfoldable pub Distinct : List (ℕ × A) → Type ℓ
  Distinct [] = Unit
  Distinct ((j, a) ∷ m) = (lookup j m ≡ none) × Distinct m

  -- What handle_accept and handle_close do to the table keeps it so.
  pub put-Distinct : (k : ℕ) (a : A) (m : List (ℕ × A)) → Distinct m → Distinct (put k a m)
  unfolding Distinct put lookup
  put-Distinct k a [] h = (refl, h)
  put-Distinct k a ((j, b) ∷ m) (p, h) = elim (Bool-cases (j == k)) [
    | inl e ↦ rw e (same e, h)
    | inr e ↦ rw e (lookup-put k j a m ∙ other e, put-Distinct k a m h)
  ]
    where
      same : (j == k) ≡ true → lookup k m ≡ none
      same e = grind (arith, p)

      other : (j == k) ≡ false → (if k == j then some a else lookup j m) ≡ none
      other e = grind (arith, p)

  pub erase-Distinct : (k : ℕ) (m : List (ℕ × A)) → Distinct m → Distinct (erase k m)
  unfolding Distinct erase lookup
  erase-Distinct k [] h = h
  erase-Distinct k ((j, b) ∷ m) (p, h) = elim (Bool-cases (j == k)) [
    | inl e ↦ rw e (erase-Distinct k m h)
    | inr e ↦ rw e (lookup-erase k j m ∙ other, erase-Distinct k m h)
  ]
    where
      other : (if k == j then none else lookup j m) ≡ none
      other = grind (arith, p)

mem : ℕ → List ℕ → Bool
mem j [] = false
mem j (fd ∷ fds) = (fd == j) || mem j fds

-- The test of the scan.
abbrev pub is_idle : ℕ → ℕ → Connection → Bool
is_idle now idle_timeout_s c = c.alive && leb (c.last_active + idle_timeout_s) now

abbrev pub idle_in : ℕ → ℕ → Option Connection → Bool
idle_in now idle_timeout_s none = false
idle_in now idle_timeout_s (some c) = is_idle now idle_timeout_s c

pub handle_close-get :
    (fd j : ℕ) (r : Reactor)
    → lookup j (handle_close fd r).conns ≡ (if fd == j then none else lookup j r.conns)
unfolding handle_close
handle_close-get fd j r = grind (arith, lookup-erase fd j r.conns)

close_all-get :
    (fds : List ℕ) (j : ℕ) (r : Reactor)
    → lookup j (close_all fds r).conns ≡ (if mem j fds then none else lookup j r.conns)
unfolding close_all mem
close_all-get [] j r = refl
close_all-get (fd ∷ fds) j r =
    close_all-get fds j (handle_close fd r) ∙ grind (arith, handle_close-get fd j r)

mem-idle_fds :
    (now limit : ℕ) (m : List (ℕ × Connection)) (j : ℕ)
    → Distinct m
    → mem j (idle_fds now limit m) ≡ idle_in now limit (lookup j m)
unfolding mem idle_fds lookup Distinct
mem-idle_fds now limit [] j h = refl
mem-idle_fds now limit ((fd, c) ∷ m) j (p, h) = grind (arith, mem-idle_fds now limit m j h, p)

-- Where every descriptor stands once in the table of connections, a descriptor has no connection
-- behind the idle scan if its connection was alive and had been idle for the timeout or longer,
-- and otherwise it has the connection that it had.
pub check_idle_closes :
    (now idle_timeout_s : ℕ) (r : Reactor) (fd : ℕ)
    → Distinct r.conns
    → lookup fd (check_idle now idle_timeout_s r).conns
      ≡ (if idle_in now idle_timeout_s (lookup fd r.conns) then none else lookup fd r.conns)
unfolding check_idle
check_idle_closes now idle_timeout_s r fd h =
    close_all-get (idle_fds now idle_timeout_s r.conns) fd r
    ∙ ap (λ b. if b then none else lookup fd r.conns) (mem-idle_fds now idle_timeout_s r.conns fd h)
