-- ===== src/Net/Outgoing.antt =====
-- The count of the commands on their way through handle_write and process_pending_writes: sending
-- leaves it alone.
use redis_cpp.Base.{
  ℕ, ◌+◌, ◌≡◌, refl, ap, inl, inr, length, ◌-◌, ◌∙◌, Bool, true, false, not, ◌||◌, Option, none,
  some, List, [], ◌∷◌, Bytes, ◌==◌, if◌then◌else◌, arith,
}
use redis_cpp.Net.Connection.{
  Connection, send_enqueue, Written, FlushEnd, sent_all, more_pending, fatal, flush, flush_loop,
  flush_end,
}
use redis_cpp.Net.Table.{lookup, put}
use redis_cpp.Net.Reactor.{
  PendingWrite, Reactor, Sent, store_conn, after_flush, handle_write, after_reply, write_one,
  write_all, process_pending_writes,
}
use redis_cpp.Net.Flight.{InFlight-same}
use redis_cpp.Net.Counts.{outstanding, Sound, InFlight-follow, handle_close-Sound}

-- A connection of which only the send buffer differs.
pub record Sends (c d : Connection) : Type 0 where
  pub fd : d.fd ≡ c.fd
  pub generation : d.generation ≡ c.generation
  pub alive : d.alive ≡ c.alive
  pub processing : d.processing ≡ c.processing
  pub command_queue : d.command_queue ≡ c.command_queue

pub flush-Sends : (kernel : ℕ → Written) (c : Connection) → Sends c (flush kernel c).0
unfolding flush
flush-Sends kernel c =
    by_end (flush_loop kernel (length c.send_buf - c.send_offset) 0 c.send_buf c.send_offset [])
  where
    by_end : (e : FlushEnd × ℕ × Bytes) → Sends c (flush_end c e).0
    by_end (sent_all, offset, taken) = record {
      fd = refl;
      generation = refl;
      alive = refl;
      processing = refl;
      command_queue = refl;
    }
    by_end (more_pending, offset, taken) = record {
      fd = refl;
      generation = refl;
      alive = refl;
      processing = refl;
      command_queue = refl;
    }
    by_end (fatal, offset, taken) = record {
      fd = refl;
      generation = refl;
      alive = refl;
      processing = refl;
      command_queue = refl;
    }

reply-Sends :
    (kernel : ℕ → Written) (bytes : Bytes) (c : Connection)
    → Sends c (flush kernel (send_enqueue bytes c)).0
unfolding send_enqueue
reply-Sends kernel bytes c =
    let s = flush-Sends kernel (send_enqueue bytes c) in
    record {
      fd = s.fd;
      generation = s.generation;
      alive = s.alive;
      processing = s.processing;
      command_queue = s.command_queue;
    }

module _ (extra : ℕ → ℕ → ℕ) where
  -- `d` takes the place of `c`.
  Sends-Sound :
      (fd : ℕ) (c d : Connection) (r : Reactor)
      → lookup fd r.conns ≡ some c
      → Sends c d
      → Sound extra r
      → Sound extra (store_conn fd d r)
  Sends-Sound fd c d r p s h =
      let i = h.each fd c p in
      InFlight-same (put fd d r.conns) r.gen_counter _
        (InFlight-follow r.conns r.gen_counter (outstanding extra r) (outstanding extra r) h fd c c
          d none p refl refl refl
          (record {
            fd = s.fd;
            generation = s.generation;
            alive = s.alive;
            count = omega (arith, ap {B = ℕ} (λ b. if b then 1 else 0) s.processing);
            busy = elim i.busy [
              | inl e ↦ inl (s.processing ∙ e)
              | inr e ↦ inr (s.command_queue ∙ e)
            ];
          })
          i.count (λ j k e. refl))
        _ (λ j k. omega arith)

  after_flush-Sound :
      (fd : ℕ) (c d : Connection) (e : FlushEnd) (r : Reactor)
      → lookup fd r.conns ≡ some c
      → Sends c d
      → Sound extra r
      → Sound extra (after_flush fd d e r)
  unfolding after_flush
  after_flush-Sound fd c d sent_all r p s h = Sends-Sound fd c d r p s h
  after_flush-Sound fd c d more_pending r p s h = Sends-Sound fd c d r p s h
  after_flush-Sound fd c d fatal r p s h =
      handle_close-Sound extra fd (store_conn fd d r) (Sends-Sound fd c d r p s h)

  after_reply-Sound :
      (fd : ℕ) (c d : Connection) (e : FlushEnd) (r : Reactor)
      → lookup fd r.conns ≡ some c
      → Sends c d
      → Sound extra r
      → Sound extra (after_reply fd d e r)
  unfolding after_reply
  after_reply-Sound fd c d sent_all r p s h = Sends-Sound fd c d r p s h
  after_reply-Sound fd c d more_pending r p s h = Sends-Sound fd c d r p s h
  after_reply-Sound fd c d fatal r p s h =
      handle_close-Sound extra fd (store_conn fd d r) (Sends-Sound fd c d r p s h)

  pub handle_write-Sound :
      (kernel : ℕ → Written) (fd : ℕ) (r : Reactor)
      → Sound extra r
      → Sound extra (handle_write kernel fd r).0
  unfolding handle_write
  handle_write-Sound kernel fd r h = by_conn (lookup fd r.conns) refl
    where
      written : Connection → Reactor × List Sent
      written c =
          let (d, end, taken) = flush kernel c in
          (after_flush fd d end r, record { fd = fd; gen = c.generation; bytes = taken } ∷ [])

      chosen : Option Connection → Reactor × List Sent
      chosen none = (r, [])
      chosen (some c) = if not c.alive then (r, []) else written c

      by_alive :
          (c : Connection)
          → lookup fd r.conns ≡ some c
          → (b : Bool) → Sound extra (if not b then (r, []) else written c).0
      by_alive c p false = h
      by_alive c p true =
          after_flush-Sound fd c (flush kernel c).0 (flush kernel c).1 r p (flush-Sends kernel c) h

      by_conn : (o : Option Connection) → lookup fd r.conns ≡ o → Sound extra (chosen o).0
      by_conn none p = h
      by_conn (some c) p = by_alive c p c.alive

  write_one-Sound :
      (kernel : ℕ → Written) (has_memory : Bool) (w : PendingWrite) (r : Reactor)
      → Sound extra r
      → Sound extra (write_one kernel has_memory w r).0
  unfolding write_one
  write_one-Sound kernel has_memory w r h = by_conn (lookup w.fd r.conns) refl
    where
      written : Connection → Reactor × List Sent
      written c =
          let (d, end, taken) = flush kernel (send_enqueue w.bytes c) in
          (after_reply w.fd d end r, record { fd = w.fd; gen = w.gen; bytes = taken } ∷ [])

      chosen : Option Connection → Reactor × List Sent
      chosen none = (r, [])
      chosen (some c) =
          if not c.alive || not (c.generation == w.gen) || not has_memory
          then (r, [])
          else written c

      by_guard :
          (c : Connection)
          → lookup w.fd r.conns ≡ some c
          → (b : Bool) → Sound extra (if b then (r, []) else written c).0
      by_guard c p true = h
      by_guard c p false =
          after_reply-Sound w.fd c (flush kernel (send_enqueue w.bytes c)).0
            (flush kernel (send_enqueue w.bytes c)).1 r p (reply-Sends kernel w.bytes c) h

      by_conn : (o : Option Connection) → lookup w.fd r.conns ≡ o → Sound extra (chosen o).0
      by_conn none p = h
      by_conn (some c) p =
          by_guard c p (not c.alive || not (c.generation == w.gen) || not has_memory)

  write_all-Sound :
      (kernel : ℕ → ℕ → Written) (has_memory : ℕ → Bool) (i : ℕ) (ws : List PendingWrite)
      (r : Reactor)
      → Sound extra r
      → Sound extra (write_all kernel has_memory i ws r).0
  unfolding write_all
  write_all-Sound kernel has_memory i [] r h = h
  write_all-Sound kernel has_memory i (w ∷ ws) r h =
      write_all-Sound kernel has_memory (i + 1) ws (write_one (kernel i) (has_memory i) w r).0
        (write_one-Sound (kernel i) (has_memory i) w r h)

  pub process_pending_writes-Sound :
      (kernel : ℕ → ℕ → Written) (has_memory : ℕ → Bool) (r : Reactor)
      → Sound extra r
      → Sound extra (process_pending_writes kernel has_memory r).0
  unfolding process_pending_writes
  process_pending_writes-Sound kernel has_memory r h =
      write_all-Sound kernel has_memory 0 r.pending_writes (record r { pending_writes = [] }) h
