-- ===== src/Net/Table.antt =====
-- A map from descriptors, such as `conns_` of src/net/EpollReactor.hpp and the interest list that
-- epoll keeps: an association list without duplicates.
use redis_cpp.Base.{ℕ, ◌≡◌, refl, Option, none, some, List, [], ◌∷◌, ◌==◌, if◌then◌else◌, arith}

module _ {ℓ} {A : Type ℓ} where
  unfoldable pub lookup : ℕ → List (ℕ × A) → Option A
  lookup k [] = none
  lookup k ((j, a) ∷ m) = if j == k then some a else lookup k m

  -- m[k] = a
  unfoldable pub put : ℕ → A → List (ℕ × A) → List (ℕ × A)
  put k a [] = (k, a) ∷ []
  put k a ((j, b) ∷ m) = if j == k then (k, a) ∷ m else (j, b) ∷ put k a m

  unfoldable pub erase : ℕ → List (ℕ × A) → List (ℕ × A)
  erase k [] = []
  erase k ((j, b) ∷ m) = if j == k then erase k m else (j, b) ∷ erase k m

  pub lookup-put :
      (k j : ℕ) (a : A) (m : List (ℕ × A))
      → lookup j (put k a m) ≡ (if k == j then some a else lookup j m)
  unfolding lookup put
  lookup-put k j a [] = refl
  lookup-put k j a ((i, b) ∷ m) = ground (arith, lookup-put k j a m)

  pub lookup-erase :
      (k j : ℕ) (m : List (ℕ × A)) → lookup j (erase k m) ≡ (if k == j then none else lookup j m)
  unfolding lookup erase
  lookup-erase k j [] = ground arith
  lookup-erase k j ((i, b) ∷ m) = ground (arith, lookup-erase k j m)
