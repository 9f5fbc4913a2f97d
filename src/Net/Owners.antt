-- ===== src/Net/Owners.antt =====
-- The sockets of src/net/Socket.hpp own the open descriptors: none is leaked, and none closed twice.
use redis_cpp.Base.{
  ℕ, ◌+◌, ◌≤◌, ◌≡◌, ap, ◌∙◌, ◌++◌, Bool, true, false, not, Option, none, some, List, [], ◌∷◌, ◌==◌,
  if◌then◌else◌, arith, inl, inr, Bool-cases,
}
use redis_cpp.Resp.Parser.{Outcome, returns, throws}
use redis_cpp.Net.Socket.{
  Socket, close, close_fd, move_from, move_assign, release, ListenCalls, set_nonblocking,
  set_cloexec, make_tcp_listen, Bench, Use, listens, destroys, moves, assigns, gives_up, turns,
  with_listener, use_socket, use_all,
}

-- How many of the open descriptors are n.
unfoldable pub opened : ℕ → List ℕ → ℕ
opened n [] = 0
opened n (m ∷ fds) = (if m == n then 1 else 0) + opened n fds

abbrev pub holds : Option ℕ → ℕ → ℕ
holds none n = 0
holds (some m) n = if m == n then 1 else 0

abbrev pub owned_by : List Socket → ℕ → ℕ
owned_by [] n = 0
owned_by (s ∷ ss) n = holds s.fd n + owned_by ss n

-- Each descriptor is open as often as it is owned, by a socket or, `free n` times, by other code.
unfoldable pub Balanced : List Socket → (ℕ → ℕ) → List ℕ → Type 0
Balanced ss free fds = (n : ℕ) → opened n fds ≡ owned_by ss n + free n

pub opened-close :
    (k n : ℕ) (fds : List ℕ)
    → 1 ≤ opened k fds
    → (if k == n then 1 else 0) + opened n (close k fds) ≡ opened n fds
unfolding opened close
opened-close k n [] h = absurd (omega arith)
opened-close k n (m ∷ fds) h = elim (Bool-cases (m == k)) [
  | inl e ↦ rw e (ground arith)
  | inr e ↦ rw e (grind (arith, opened-close k n fds))
]

pub holds_self : (m : ℕ) → holds (some m) m ≡ 1
holds_self m = ground arith

pub close_fd-Balanced :
    (s : Socket) (ss : List Socket) (free : ℕ → ℕ) (fds : List ℕ)
    → Balanced (s ∷ ss) free fds
    → Balanced ((close_fd s fds).0 ∷ ss) free (close_fd s fds).1
unfolding Balanced close_fd
close_fd-Balanced s ss free fds h = by_fd s.fd h
  where
    closed : Option ℕ → Socket × List ℕ
    closed none = (s, fds)
    closed (some k) = (record { fd = none }, close k fds)

    at_least :
        (m : ℕ) → opened m fds ≡ (holds (some m) m + owned_by ss m) + free m → 1 ≤ opened m fds
    at_least m q = omega (arith, q, holds_self m)

    by_fd :
        (o : Option ℕ)
        → ((n : ℕ) → opened n fds ≡ (holds o n + owned_by ss n) + free n)
        → (n : ℕ) → opened n (closed o).1 ≡ (holds (closed o).0.fd n + owned_by ss n) + free n
    by_fd none k n = h n
    by_fd (some m) k n =
        omega (arith, k n, k m, holds_self m, opened-close m n fds (at_least m (k m)))

pub close_fd-empty : (s : Socket) (fds : List ℕ) → (close_fd s fds).0.fd ≡ none
unfolding close_fd
close_fd-empty s fds = ground arith

pub close_top : (n : ℕ) (fds : List ℕ) → close n (n ∷ fds) ≡ fds
unfolding close
close_top n fds = ground arith

abbrev pub IsBalanced : Bench → Type 0
IsBalanced b = Balanced b.sockets (λ n. opened n b.released) b.fds

owned_by-append :
    (ss ts : List Socket) (n : ℕ) → owned_by (ss ++ ts) n ≡ owned_by ss n + owned_by ts n
owned_by-append [] ts n = omega arith
owned_by-append (s ∷ ss) ts n = omega (arith, owned_by-append ss ts n)

pub listens-IsBalanced :
    (calls : ListenCalls) (b : Bench) → IsBalanced b → IsBalanced (use_socket (listens calls) b)
unfolding use_socket make_tcp_listen close_fd Balanced opened
listens-IsBalanced calls b h = by_socket calls.socket
  where
    unwound : ℕ → Outcome Socket × List ℕ
    unwound n = (throws, close n (n ∷ b.fds))

    guarded : ℕ → Bool → Bool → Bool → Bool → Outcome Socket × List ℕ
    guarded n p q r t =
        if not p
        then unwound n
        else if not q
        then unwound n
        else if not r
        then unwound n
        else if not t
        then unwound n
        else (returns (record { fd = some n }), n ∷ b.fds)

    called : Option ℕ → Outcome Socket × List ℕ
    called none = (throws, b.fds)
    called (some n) = guarded n (set_nonblocking calls) (set_cloexec calls) calls.bind calls.listen

    thrown : (n : ℕ) → IsBalanced (with_listener b (unwound n))
    thrown n k = ap (opened k) (close_top n b.fds) ∙ h k

    by_guards : (n : ℕ) (p q r t : Bool) → IsBalanced (with_listener b (guarded n p q r t))
    by_guards n false q r t = thrown n
    by_guards n true false r t = thrown n
    by_guards n true true false t = thrown n
    by_guards n true true true false = thrown n
    by_guards n true true true true = λ k. omega (arith, h k)

    by_socket : (o : Option ℕ) → IsBalanced (with_listener b (called o))
    by_socket none = h
    by_socket (some n) =
        by_guards n (set_nonblocking calls) (set_cloexec calls) calls.bind calls.listen

-- The uses of a socket that is there.
module _ (s : Socket) (ss : List Socket) (free : List ℕ) (fds : List ℕ)
    (h : Balanced (s ∷ ss) (λ n. opened n free) fds) where
  destroyed : Balanced ss (λ n. opened n free) (close_fd s fds).1
  unfolding Balanced
  destroyed n = omega (
    arith,
    close_fd-Balanced s ss (λ m. opened m free) fds h n,
    ap (λ o. holds o n) (close_fd-empty s fds),
  )

  moved : Balanced ((move_from s).0 ∷ (move_from s).1 ∷ ss) (λ n. opened n free) fds
  unfolding Balanced move_from
  moved n = omega (arith, h n)

  given_up :
      Balanced
        ((release s).1 ∷ ss)
        (λ n. opened n (elim (release s).0 [ none ↦ free | some m ↦ m ∷ free ]))
        fds
  unfolding Balanced release opened
  given_up n = by_fd s.fd (h n)
    where
      by_fd :
          (o : Option ℕ)
          → opened n fds ≡ (holds o n + owned_by ss n) + opened n free
          → opened n fds
            ≡ (0 + owned_by ss n) + opened n (elim o [ none ↦ free | some m ↦ m ∷ free ])
      by_fd none q = q
      by_fd (some m) q = omega (arith, q)

  turned : Balanced (ss ++ s ∷ []) (λ n. opened n free) fds
  unfolding Balanced
  turned n = omega (arith, h n, owned_by-append ss (s ∷ []) n)

assigned :
    (s o : Socket) (ss : List Socket) (free : List ℕ) (fds : List ℕ)
    → Balanced (s ∷ o ∷ ss) (λ n. opened n free) fds
    → Balanced ((move_from o).0 ∷ (move_from o).1 ∷ ss) (λ n. opened n free) (close_fd s fds).1
assigned s o ss free fds h = moved o ss free (close_fd s fds).1 (destroyed s (o ∷ ss) free fds h)

use_socket-IsBalanced : (u : Use) (b : Bench) → IsBalanced b → IsBalanced (use_socket u b)
unfolding use_socket move_assign
use_socket-IsBalanced (listens calls) b h = listens-IsBalanced calls b h
use_socket-IsBalanced destroys b h = by_sockets b.sockets h
  where
    by_sockets :
        (ss : List Socket)
        → Balanced ss (λ n. opened n b.released) b.fds
        → IsBalanced (elim ss [
          | [] ↦ b
          | s ∷ rest ↦ record b { sockets = rest; fds = (close_fd s b.fds).1 }
        ])
    by_sockets [] k = h
    by_sockets (s ∷ rest) k = destroyed s rest b.released b.fds k
use_socket-IsBalanced moves b h = by_sockets b.sockets h
  where
    by_sockets :
        (ss : List Socket)
        → Balanced ss (λ n. opened n b.released) b.fds
        → IsBalanced (elim ss [
          | [] ↦ b
          | s ∷ rest ↦ record b { sockets = (move_from s).0 ∷ (move_from s).1 ∷ rest }
        ])
    by_sockets [] k = h
    by_sockets (s ∷ rest) k = moved s rest b.released b.fds k
use_socket-IsBalanced assigns b h = by_sockets b.sockets h
  where
    paired : Socket → List Socket → Bench
    paired s [] = b
    paired s (o ∷ rest) = record b {
      sockets = (move_from o).0 ∷ (move_from o).1 ∷ rest;
      fds = (close_fd s b.fds).1;
    }

    by_sockets :
        (ss : List Socket)
        → Balanced ss (λ n. opened n b.released) b.fds
        → IsBalanced (elim ss [ [] ↦ b | s ∷ rest ↦ paired s rest ])
    by_sockets [] k = h
    by_sockets (s ∷ []) k = h
    by_sockets (s ∷ o ∷ rest) k = assigned s o rest b.released b.fds k
use_socket-IsBalanced gives_up b h = by_sockets b.sockets h
  where
    by_sockets :
        (ss : List Socket)
        → Balanced ss (λ n. opened n b.released) b.fds
        → IsBalanced (elim ss [
          | [] ↦ b
          | s ∷ rest ↦ record b {
            sockets = (release s).1 ∷ rest;
            released = elim (release s).0 [ none ↦ b.released | some n ↦ n ∷ b.released ];
          }
        ])
    by_sockets [] k = h
    by_sockets (s ∷ rest) k = given_up s rest b.released b.fds k
use_socket-IsBalanced turns b h = by_sockets b.sockets h
  where
    by_sockets :
        (ss : List Socket)
        → Balanced ss (λ n. opened n b.released) b.fds
        → IsBalanced (elim ss [ [] ↦ b | s ∷ rest ↦ record b { sockets = rest ++ s ∷ [] } ])
    by_sockets [] k = h
    by_sockets (s ∷ rest) k = turned s rest b.released b.fds k

-- If each descriptor is open exactly as often as a socket owns it or release has given it away,
-- then the same is true after any sequence of uses: a listen socket made with any results of the
-- system calls, a socket destroyed, moved from, assigned to by a move, or released.
pub use_all-IsBalanced : (us : List Use) (b : Bench) → IsBalanced b → IsBalanced (use_all us b)
unfolding use_all
use_all-IsBalanced [] b h = h
use_all-IsBalanced (u ∷ us) b h =
    use_all-IsBalanced us (use_socket u b) (use_socket-IsBalanced u b h)
