-- ===== src/Net/InOrder.antt =====
-- process_pending_writes of src/net/EpollReactor.cpp hands the replies of one connection to the kernel
-- in their order, and keeps what the kernel does not take.
use redis_cpp.Base.{
  ℕ, ◌+◌, ◌≤◌, ◌≡◌, ◌⊎◌, inl, inr, refl, sym, ap, ◌∙◌, subst, true, ◌&&◌, none, some, List, [], ◌∷◌,
  ◌++◌, Bytes, ◌==◌, length, Bool-cases, append_assoc, append-nil, some-injective,
}
use redis_cpp.Net.Connection.{
  Connection, send_enqueue, Written, FlushEnd, sent_all, more_pending, fatal, flush,
}
use redis_cpp.Net.Delivered.{
  sent_to, replies_to, sent_to-append, Within, drop-append, flush-Within, left_by, answered, how,
  write_one-gone, write_one-other, write_one-own,
}
use redis_cpp.Net.Sending.{unsent, flush-unsent}
use redis_cpp.Net.Outgoing.{Sends, flush-Sends}
use redis_cpp.Net.Table.{lookup}
use redis_cpp.Net.Reactor.{PendingWrite, Reactor, write_one, write_all, process_pending_writes}

write_all-gone :
    (kernel : ℕ → ℕ → Written) (i : ℕ) (ws : List PendingWrite) (r : Reactor) (fd : ℕ)
    → lookup fd r.conns ≡ none
    → lookup fd (write_all kernel (λ _. true) i ws r).0.conns ≡ none
unfolding write_all
write_all-gone kernel i [] r fd p = p
write_all-gone kernel i (w ∷ ws) r fd p =
    write_all-gone kernel (i + 1) ws (write_one (kernel i) true w r).0 fd
      (write_one-gone (kernel i) w r fd p)

-- The reply that is appended, and flush, as one step of the connection.
enqueued-unsent :
    (bytes : Bytes) (c : Connection) → Within c → unsent (send_enqueue bytes c) ≡ unsent c ++ bytes
unfolding send_enqueue
enqueued-unsent bytes c h = drop-append c.send_offset c.send_buf bytes h

enqueued-same :
    (bytes : Bytes) (c : Connection)
    → ((send_enqueue bytes c).alive ≡ c.alive) × ((send_enqueue bytes c).generation ≡ c.generation)
unfolding send_enqueue
enqueued-same bytes c = (refl, refl)

-- Two pieces, taken one behind the other.
pieces : (a b d u v q x : Bytes) → a ++ u ≡ v ++ q → b ++ d ≡ u ++ x → (a ++ b) ++ d ≡ v ++ (q ++ x)
pieces a b d u v q x e f =
    append_assoc a b d
    ∙ ap (λ y. a ++ y) f
    ∙ sym (append_assoc a u x)
    ∙ ap (λ y. y ++ x) e
    ∙ append_assoc v q x

-- What holds for the writes behind, for one connection.
Delivers :
    (ℕ → ℕ → Written) → ℕ → List PendingWrite → Reactor → ℕ → Connection → Connection → Type 0
Delivers kernel i ws r fd c d =
    sent_to fd c.generation (write_all kernel (λ _. true) i ws r).1 ++ unsent d
    ≡ unsent c ++ replies_to fd c.generation ws

-- The first write is for the connection, and the others are delivered to what it leaves.
own_first-Delivers :
    (kernel : ℕ → ℕ → Written) (i : ℕ) (w : PendingWrite) (ws : List PendingWrite) (r : Reactor)
    (fd : ℕ) (c d : Connection)
    → lookup fd r.conns ≡ some c
    → c.alive ≡ true
    → Within c
    → ((w.fd == fd) && (w.gen == c.generation)) ≡ true
    → lookup fd (write_all kernel (λ _. true) (i + 1) ws (write_one (kernel i) true w r).0).0.conns
      ≡ some d
    → ((x : Connection)
        → lookup fd (write_one (kernel i) true w r).0.conns ≡ some x
        → x.alive ≡ true
        → Within x
        → Delivers kernel (i + 1) ws (write_one (kernel i) true w r).0 fd x d)
    → Delivers kernel i (w ∷ ws) r fd c d
unfolding write_all Delivers replies_to how answered
own_first-Delivers kernel i w ws r fd c d p live h e q rest =
    rw
      (
        e,
        sent_to-append fd c.generation (write_one (kernel i) true w r).1
            (write_all kernel (λ _. true) (i + 1) ws s).1,
      )
      (by_how (how (kernel i) w r c) refl own.0)
  where
    s : Reactor
    s = (write_one (kernel i) true w r).0

    x : Connection
    x = (flush (kernel i) (send_enqueue w.bytes c)).0

    own :
        (lookup fd s.conns ≡ left_by (how (kernel i) w r c) x)
        × (sent_to fd c.generation (write_one (kernel i) true w r).1
            ≡ (flush (kernel i) (send_enqueue w.bytes c)).2)
    own = write_one-own (kernel i) w r fd c p live e

    same : Sends (send_enqueue w.bytes c) x
    same = flush-Sends (kernel i) (send_enqueue w.bytes c)

    Goal : Type 0
    Goal =
        (sent_to fd c.generation (write_one (kernel i) true w r).1
            ++ sent_to fd c.generation (write_all kernel (λ _. true) (i + 1) ws s).1)
          ++ unsent d
        ≡ unsent c ++ (w.bytes ++ replies_to fd c.generation ws)

    on : lookup fd s.conns ≡ some x → Within x → Goal
    on g within =
        pieces _ _ _ (unsent x) (unsent c) w.bytes _
          (ap (λ y. y ++ unsent x) own.1
            ∙ (flush-unsent (kernel i) (send_enqueue w.bytes c)).0
            ∙ enqueued-unsent w.bytes c h)
          (subst
            (λ k.
              sent_to fd k (write_all kernel (λ _. true) (i + 1) ws s).1 ++ unsent d
              ≡ unsent x ++ replies_to fd k ws)
            (same.generation ∙ (enqueued-same w.bytes c).1)
            (rest x g (same.alive ∙ (enqueued-same w.bytes c).0 ∙ live) within))

    within_or : (flush (kernel i) (send_enqueue w.bytes c)).1 ≡ fatal ⊎ Within x
    within_or = flush-Within (kernel i) (send_enqueue w.bytes c)

    within : (z : FlushEnd) → how (kernel i) w r c ≡ z → (z ≡ fatal → ⊥) → Within x
    within z k ne = elim within_or [ inl f ↦ absurd (ne (sym k ∙ f)) | inr y ↦ y ]

    lost : lookup fd s.conns ≡ none → ⊥
    lost g = no_connection (sym (write_all-gone kernel (i + 1) ws s fd g) ∙ q)
      where
        no_connection : none ≡ some d → ⊥
        no_connection y = cc

    by_how :
        (z : FlushEnd)
        → how (kernel i) w r c ≡ z
        → lookup fd s.conns ≡ left_by (how (kernel i) w r c) x
        → Goal
    by_how sent_all k g = on (g ∙ ap (λ z. left_by z x) k) (within sent_all k (λ y. cc))
    by_how more_pending k g = on (g ∙ ap (λ z. left_by z x) k) (within more_pending k (λ y. cc))
    by_how fatal k g = absurd (lost (g ∙ ap (λ z. left_by z x) k))

write_all-Delivers :
    (kernel : ℕ → ℕ → Written) (i : ℕ) (ws : List PendingWrite) (r : Reactor) (fd : ℕ)
    (c d : Connection)
    → lookup fd r.conns ≡ some c
    → c.alive ≡ true
    → Within c
    → lookup fd (write_all kernel (λ _. true) i ws r).0.conns ≡ some d
    → Delivers kernel i ws r fd c d
unfolding write_all Delivers replies_to sent_to
write_all-Delivers kernel i [] r fd c d p live h q =
    ap unsent (some-injective (sym q ∙ p)) ∙ sym (append-nil (unsent c))
write_all-Delivers kernel i (w ∷ ws) r fd c d p live h q =
    elim (Bool-cases ((w.fd == fd) && (w.gen == c.generation))) [
      | inr e ↦
          (let (p', z) = write_one-other (kernel i) w r fd c p e in
            rw
              (
                e,
                sent_to-append fd c.generation (write_one (kernel i) true w r).1
                    (write_all kernel (λ _. true) (i + 1) ws (write_one (kernel i) true w r).0).1,
                z,
              )
              (write_all-Delivers kernel (i + 1) ws (write_one (kernel i) true w r).0 fd c d p' live
                h q))
      | inl e ↦ own_first-Delivers kernel i w ws r fd c d p live h e q (λ x p' live' h'.
          write_all-Delivers kernel (i + 1) ws (write_one (kernel i) true w r).0 fd x d p' live' h'
            q)
    ]

-- Take a live connection whose offset lies within its send buffer and which is still in the table
-- behind process_pending_writes, where every reply can be appended. The bytes that the kernel has
-- taken for its descriptor and generation, followed by those that are unsent then, are the bytes
-- that were unsent before, followed by the pending replies for its descriptor and generation in
-- their order, whatever the calls of write return.
pub process_pending_writes-in_order :
    (kernel : ℕ → ℕ → Written) (r : Reactor) (fd : ℕ) (c d : Connection)
    → lookup fd r.conns ≡ some c
    → c.alive ≡ true
    → c.send_offset ≤ length c.send_buf
    → lookup fd (process_pending_writes kernel (λ _. true) r).0.conns ≡ some d
    → sent_to fd c.generation (process_pending_writes kernel (λ _. true) r).1 ++ unsent d
      ≡ unsent c ++ replies_to fd c.generation r.pending_writes
unfolding process_pending_writes Delivers
process_pending_writes-in_order kernel r fd c d p live h q =
    write_all-Delivers kernel 0 r.pending_writes (record r { pending_writes = [] }) fd c d p live h
      q
