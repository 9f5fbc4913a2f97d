-- ===== src/Net/Delivered.antt =====
-- One pending write in process_pending_writes of src/net/EpollReactor.cpp: what it hands to the kernel, and
-- what it leaves of the connections.
use redis_cpp.Base.{
  ℕ, zero, suc, ◌+◌, ◌-◌, ◌≤◌, ◌≡◌, ◌⊎◌, inl, inr, refl, sym, ap, ◌∙◌, true, false, ◌&&◌, Option,
  none, some, List, [], ◌∷◌, ◌++◌, Bytes, ltb, ◌==◌, if◌then◌else◌, length, take, drop, arith,
  Bool-cases, append_assoc, append-nil,
}
use redis_cpp.Net.Connection.{
  Connection, send_enqueue, Written, wrote, would_block, failed, FlushEnd, sent_all, more_pending,
  fatal, flush_loop, flush_end, flush,
}
use redis_cpp.Net.Table.{lookup, lookup-put}
use redis_cpp.Net.Idle.{handle_close-get}
use redis_cpp.Net.Reactor.{PendingWrite, Reactor, Sent, store_conn, after_reply, write_one}

-- What of a list of sent bytes, or of pending writes, is for one connection.
unfoldable pub sent_to : ℕ → ℕ → List Sent → Bytes
sent_to fd gen [] = []
sent_to fd gen (s ∷ out) =
    (if (s.fd == fd) && (s.gen == gen) then s.bytes else []) ++ sent_to fd gen out

unfoldable pub replies_to : ℕ → ℕ → List PendingWrite → Bytes
replies_to fd gen [] = []
replies_to fd gen (w ∷ ws) =
    (if (w.fd == fd) && (w.gen == gen) then w.bytes else []) ++ replies_to fd gen ws

pub sent_to-append :
    (fd gen : ℕ) (a b : List Sent) → sent_to fd gen (a ++ b) ≡ sent_to fd gen a ++ sent_to fd gen b
unfolding sent_to
sent_to-append fd gen [] b = refl
sent_to-append fd gen (s ∷ a) b =
    ap (λ x. (if (s.fd == fd) && (s.gen == gen) then s.bytes else []) ++ x)
      (sent_to-append fd gen a b)
    ∙ sym (
        append_assoc (if (s.fd == fd) && (s.gen == gen) then s.bytes else []) (sent_to fd gen a)
          (sent_to fd gen b))

-- An offset within the buffer.
abbrev pub Within : Connection → Type 0
Within c = c.send_offset ≤ length c.send_buf

pub drop-append : (n : ℕ) (s t : Bytes) → n ≤ length s → drop n (s ++ t) ≡ drop n s ++ t
drop-append zero s t h = refl
drop-append (suc n) [] t h = absurd (omega arith)
drop-append (suc n) (c ∷ s) t h = drop-append n s t (omega arith)

Stops : Bytes → FlushEnd × ℕ × Bytes → Type 0
Stops buf (end, offset, taken) = end ≡ more_pending → offset ≤ length buf

flush_loop-Stops :
    (kernel : ℕ → Written) (fuel i : ℕ) (buf : Bytes) (offset : ℕ) (taken : Bytes)
    → Stops buf (flush_loop kernel fuel i buf offset taken)
unfolding flush_loop Stops
flush_loop-Stops kernel zero i buf offset taken = λ e. cc
flush_loop-Stops kernel (suc fuel) i buf offset taken =
    elim (Bool-cases (ltb offset (length buf))) [
      | inr e ↦ rw e (λ q. cc)
      | inl e ↦ rw e (
          by_answer e (kernel i) (λ n.
            flush_loop-Stops kernel fuel (i + 1) buf (offset + suc n)
              (taken ++ take (suc n) (drop offset buf))))
    ]
  where
    by_answer :
        ltb offset (length buf) ≡ true
        → (a : Written)
        → ((n : ℕ)
            → Stops buf (
                flush_loop kernel fuel
                  (i + 1)
                  buf
                  (offset + suc n)
                  (taken ++ take (suc n) (drop offset buf))))
        → Stops buf (elim a [
          | would_block ↦ (more_pending, offset, taken)
          | failed ↦ (fatal, offset, taken)
          | wrote zero ↦ (fatal, offset, taken)
          | wrote (suc n) ↦
              flush_loop kernel fuel
                (i + 1)
                buf
                (offset + suc n)
                (taken ++ take (suc n) (drop offset buf))
        ])
    by_answer e would_block rest = λ q. ground arith
    by_answer e failed rest = λ q. cc
    by_answer e (wrote zero) rest = λ q. cc
    by_answer e (wrote (suc n)) rest = rest n

pub flush-Within :
    (kernel : ℕ → Written) (c : Connection) → (flush kernel c).1 ≡ fatal ⊎ Within (flush kernel c).0
unfolding flush flush_end Stops
flush-Within kernel c =
    by_end (flush_loop kernel (length c.send_buf - c.send_offset) 0 c.send_buf c.send_offset [])
      (flush_loop-Stops kernel (length c.send_buf - c.send_offset) 0 c.send_buf c.send_offset [])
  where
    by_end :
        (r : FlushEnd × ℕ × Bytes)
        → Stops c.send_buf r
        → ((flush_end c r).1 ≡ fatal) ⊎ Within (flush_end c r).0
    by_end (sent_all, offset, taken) h = inr (omega arith)
    by_end (more_pending, offset, taken) h = inr (h refl)
    by_end (fatal, offset, taken) h = inl refl

-- The connection that a reply leaves.
abbrev pub left_by : FlushEnd → Connection → Option Connection
left_by sent_all d = some d
left_by more_pending d = some d
left_by fatal d = none

after_reply-get :
    (fd j : ℕ) (d : Connection) (e : FlushEnd) (r : Reactor)
    → lookup j (after_reply fd d e r).conns ≡ (if fd == j then left_by e d else lookup j r.conns)
unfolding after_reply
after_reply-get fd j d sent_all r = lookup-put fd j d r.conns
after_reply-get fd j d more_pending r = lookup-put fd j d r.conns
after_reply-get fd j d fatal r =
    handle_close-get fd j (store_conn fd d r) ∙ grind (arith, lookup-put fd j d r.conns)

-- One pending write, where the reply can be appended: for a connection that is in the table.
module _ (kernel : ℕ → Written) (w : PendingWrite) (r : Reactor) where
  unfoldable pub answered : Connection → Connection
  answered c = (flush kernel (send_enqueue w.bytes c)).0

  unfoldable pub how : Connection → FlushEnd
  how c = (flush kernel (send_enqueue w.bytes c)).1

  pub write_one-gone :
      (fd : ℕ) → lookup fd r.conns ≡ none → lookup fd (write_one kernel true w r).0.conns ≡ none
  unfolding write_one
  write_one-gone fd p = grind (arith, after_reply-get w.fd fd)

  -- It is not for the connection.
  pub write_one-other :
      (fd : ℕ) (c : Connection)
      → lookup fd r.conns ≡ some c
      → ((w.fd == fd) && (w.gen == c.generation)) ≡ false
      → (lookup fd (write_one kernel true w r).0.conns ≡ some c)
        × (sent_to fd c.generation (write_one kernel true w r).1 ≡ [])
  unfolding write_one sent_to
  write_one-other fd c p e = (grind (arith, after_reply-get w.fd fd), grind arith)

  -- It is for the connection.
  pub write_one-own :
      (fd : ℕ) (c : Connection)
      → lookup fd r.conns ≡ some c
      → c.alive ≡ true
      → ((w.fd == fd) && (w.gen == c.generation)) ≡ true
      → (lookup fd (write_one kernel true w r).0.conns ≡ left_by (how c) (answered c))
        × (sent_to fd c.generation (write_one kernel true w r).1
            ≡ (flush kernel (send_enqueue w.bytes c)).2)
  unfolding write_one sent_to how answered
  write_one-own fd c p live e = (grind (arith, after_reply-get w.fd fd), grind (arith, append-nil))
