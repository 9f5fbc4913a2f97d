-- ===== src/Net/Armed.antt =====
-- A connection that has unsent bytes is watched for EPOLLOUT, so the kernel will say when it takes
-- more.
use redis_cpp.Base.{
  ℕ, ◌+◌, ◌%◌, ◌≡◌, inl, inr, refl, sym, ◌∙◌, subst, true, false, Option, none, some, List, [],
  Bytes, ◌==◌, if◌then◌else◌, arith, Bool-cases, some-injective,
}
use redis_cpp.Net.Connection.{
  Connection, make_connection, FlushEnd, sent_all, more_pending, fatal, Written, flush,
  send_enqueue,
}
use redis_cpp.Net.Unsent.{flush-nothing}
use redis_cpp.Net.Sending.{unsent, flush-unsent}
use redis_cpp.Net.Table.{lookup, put, erase, lookup-put, lookup-erase}
use redis_cpp.Net.Reactor.{
  Interest, Reactor, reading, reading_and_writing, epoll_add, epoll_mod, epoll_del, handle_close,
  accept_one, store_conn, after_flush, after_reply,
}

pending_ne : more_pending ≡ sent_all → ⊥
pending_ne e = cc

-- What the interest list has for a connection: EPOLLOUT, or anything where nothing is unsent.
pub data IsWatched (o : Option Interest) (c : Connection) : Type 0 where
  armed : o ≡ some reading_and_writing → IsWatched o c
  at_rest : (i : Interest) → o ≡ some i → unsent c ≡ [] → IsWatched o c

unfoldable pub IsArmed : List (ℕ × Connection) → List (ℕ × Interest) → Type 0
IsArmed m w = (fd : ℕ) (c : Connection) → lookup fd m ≡ some c → IsWatched (lookup fd w) c

IsWatched-same :
    (o : Option Interest) (c d : Connection) → unsent d ≡ unsent c → IsWatched o c → IsWatched o d
IsWatched-same o c d e (armed p) = armed p
IsWatched-same o c d e (at_rest i p q) = at_rest i p (e ∙ q)

module _ (m : List (ℕ × Connection)) (w : List (ℕ × Interest)) (h : IsArmed m w) where
  -- Another state of a connection, with another entry in the interest list.
  IsArmed-put :
      (fd : ℕ) (d : Connection) (i : Interest)
      → IsWatched (some i) d
      → IsArmed (put fd d m) (put fd i w)
  unfolding IsArmed
  IsArmed-put fd d i k j c p =
      subst (λ o. IsWatched o c) (sym (lookup-put fd j i w))
        (elim (Bool-cases (fd == j)) [
          | inl e ↦ rw e (
              subst (IsWatched (some i)) (some-injective (rw e at (sym (lookup-put fd j d m) ∙ p)))
                k)
          | inr e ↦ rw e (h j c (rw e at (sym (lookup-put fd j d m) ∙ p)))
        ])

  IsArmed-keep : (fd : ℕ) (d : Connection) → IsWatched (lookup fd w) d → IsArmed (put fd d m) w
  unfolding IsArmed
  IsArmed-keep fd d k j c p = elim (Bool-cases (fd == j)) [
    | inl e ↦
        subst (λ x. IsWatched (lookup x w) c) (same e)
          (subst (IsWatched (lookup fd w))
            (some-injective (rw e at (sym (lookup-put fd j d m) ∙ p))) k)
    | inr e ↦ h j c (rw e at (sym (lookup-put fd j d m) ∙ p))
  ]
    where
      same : (fd == j) ≡ true → fd ≡ j
      same e = ground arith

  -- Without the descriptor `fd`, where `m'` differs from `m` at most there.
  IsArmed-erase :
      (fd : ℕ) (m' : List (ℕ × Connection))
      → ((j : ℕ) → (fd == j) ≡ false → lookup j m' ≡ lookup j m)
      → IsArmed (erase fd m') (erase fd w)
  unfolding IsArmed
  IsArmed-erase fd m' others j c p =
      subst (λ o. IsWatched o c) (sym (lookup-erase fd j w))
        (elim (Bool-cases (fd == j)) [
          | inl e ↦ absurd (gone e)
          | inr e ↦ rw e (h j c (sym (others j e) ∙ rw e at (sym (lookup-erase fd j m') ∙ p)))
        ])
    where
      nothing : none ≡ some c → ⊥
      nothing q = cc

      gone : (fd == j) ≡ true → ⊥
      gone e = nothing (rw e at (sym (lookup-erase fd j m') ∙ p))

-- A connection's entry is changed where it has one, and made where it has none.
IsWatched-mod :
    (fd : ℕ) (i : Interest) (w : List (ℕ × Interest)) (c : Connection)
    → IsWatched (lookup fd w) c
    → epoll_mod fd i w ≡ put fd i w
unfolding epoll_mod
IsWatched-mod fd i w c (armed p) = rw (p, epoll_mod) refl
IsWatched-mod fd i w c (at_rest j p q) = rw (p, epoll_mod) refl

module _ (r : Reactor) (h : IsArmed r.conns r.interests) where
  pub handle_close-IsArmed :
      (fd : ℕ) → IsArmed (handle_close fd r).conns (handle_close fd r).interests
  unfolding handle_close epoll_del
  handle_close-IsArmed fd = by_conn (lookup fd r.conns)
    where
      closed : Option Connection → Reactor
      closed none = r
      closed (some c) = record r { conns = erase fd r.conns; interests = epoll_del fd r.interests }

      by_conn : (o : Option Connection) → IsArmed (closed o).conns (closed o).interests
      by_conn none = h
      by_conn (some c) = IsArmed-erase r.conns r.interests h fd r.conns (λ j e. refl)

  pub accept_one-IsArmed :
      (now fd : ℕ) → IsArmed (accept_one now fd r).conns (accept_one now fd r).interests
  unfolding accept_one make_connection epoll_add
  accept_one-IsArmed now fd = by_entry (lookup fd r.interests) refl
    where
      fresh : Connection
      fresh = make_connection fd ((r.gen_counter + 1) % 18446744073709551616) now

      by_entry :
          (o : Option Interest)
          → lookup fd r.interests ≡ o
          → IsArmed
              (put fd fresh r.conns)
              (elim o [ none ↦ put fd reading r.interests | some _ ↦ r.interests ])
      by_entry none p =
          IsArmed-put r.conns r.interests h fd fresh reading (at_rest reading refl refl)
      by_entry (some i) p = IsArmed-keep r.conns r.interests h fd fresh (at_rest i p refl)

  -- A connection that is closed behind a change of it.
  handle_close-stored :
      (fd : ℕ) (d : Connection)
      → let s = handle_close fd (store_conn fd d r) in IsArmed s.conns s.interests
  unfolding handle_close epoll_del
  handle_close-stored fd d = by_conn (lookup fd (put fd d r.conns)) (lookup-put fd fd d r.conns)
    where
      closed : Option Connection → Reactor
      closed none = store_conn fd d r
      closed (some c) = record (store_conn fd d r) {
        conns = erase fd (put fd d r.conns);
        interests = epoll_del fd r.interests;
      }

      others : (j : ℕ) → (fd == j) ≡ false → lookup j (put fd d r.conns) ≡ lookup j r.conns
      others j e = lookup-put fd j d r.conns ∙ rw e refl

      by_conn :
          (o : Option Connection)
          → o ≡ (if fd == fd then some d else lookup fd r.conns)
          → IsArmed (closed o).conns (closed o).interests
      by_conn none e = absurd (ground arith)
      by_conn (some c) e = IsArmed-erase r.conns r.interests h fd (put fd d r.conns) others

  module _ (fd : ℕ) (c : Connection) (p : lookup fd r.conns ≡ some c) where
    watched : IsWatched (lookup fd r.interests) c
    unfolding IsArmed
    watched = h fd c p

    -- The connection is as it was, so far as its unsent bytes go.
    pub store_conn-IsArmed :
        (d : Connection) → unsent d ≡ unsent c → IsArmed (put fd d r.conns) r.interests
    store_conn-IsArmed d e =
        IsArmed-keep r.conns r.interests h fd d
          (IsWatched-same (lookup fd r.interests) c d e watched)

    IsArmed-modified :
        (d : Connection) (i : Interest)
        → IsWatched (some i) d
        → IsArmed (put fd d r.conns) (epoll_mod fd i r.interests)
    IsArmed-modified d i k =
        subst (IsArmed (put fd d r.conns)) (sym (IsWatched-mod fd i r.interests c watched))
          (IsArmed-put r.conns r.interests h fd d i k)

    pub after_flush-IsArmed :
        (kernel : ℕ → Written) (end : FlushEnd)
        → (flush kernel c).1 ≡ end
        → let s = after_flush fd (flush kernel c).0 end r in IsArmed s.conns s.interests
    unfolding after_flush
    after_flush-IsArmed kernel sent_all e = IsArmed-modified (flush kernel c).0 reading (
        at_rest reading refl
          (elim (flush-unsent kernel c).1 [ inl ne ↦ absurd (ne e) | inr q ↦ q ]))
    after_flush-IsArmed kernel more_pending e =
        IsArmed-keep r.conns r.interests h fd (flush kernel c).0 (still watched)
      where
        still :
            IsWatched (lookup fd r.interests) c
            → IsWatched (lookup fd r.interests) (flush kernel c).0
        still (armed q) = armed q
        still (at_rest i q u) = absurd (pending_ne (sym e ∙ flush-nothing kernel c u))
    after_flush-IsArmed kernel fatal e = handle_close-stored fd (flush kernel c).0

    pub after_reply-IsArmed :
        (kernel : ℕ → Written) (bytes : Bytes) (end : FlushEnd)
        → (flush kernel (send_enqueue bytes c)).1 ≡ end
        → let s = after_reply fd (flush kernel (send_enqueue bytes c)).0 end r in
          IsArmed s.conns s.interests
    unfolding after_reply
    after_reply-IsArmed kernel bytes sent_all e =
        IsArmed-keep r.conns r.interests h fd d (still watched)
      where
        d : Connection
        d = (flush kernel (send_enqueue bytes c)).0

        nothing_left : unsent d ≡ []
        nothing_left = elim (flush-unsent kernel (send_enqueue bytes c)).1 [
          | inl ne ↦ absurd (ne e)
          | inr q ↦ q
        ]

        still : IsWatched (lookup fd r.interests) c → IsWatched (lookup fd r.interests) d
        still (armed q) = armed q
        still (at_rest i q u) = at_rest i q nothing_left
    after_reply-IsArmed kernel bytes more_pending e =
        IsArmed-modified (flush kernel (send_enqueue bytes c)).0 reading_and_writing (armed refl)
    after_reply-IsArmed kernel bytes fatal e =
        handle_close-stored fd (flush kernel (send_enqueue bytes c)).0
