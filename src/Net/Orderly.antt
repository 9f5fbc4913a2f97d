-- ===== src/Net/Orderly.antt =====
-- What holds of a connection at every moment, and that handing a command over keeps it.
use redis_cpp.Base.{
  ℕ, ◌+◌, ◌≤◌, ◌≡◌, refl, sym, ap, subst, ◌∙◌, Bool, true, false, none, some, List, [], ◌∷◌, ◌++◌,
  Bytes, if◌then◌else◌, length, arith, length-append, append_assoc, Bool-cases, ◌⊎◌, inl, inr,
}
use redis_cpp.Resp.Rounds.{Fits}
use redis_cpp.Net.Connection.{Connection, dispatch_front, dispatch_next_command, dispatch_if_idle}
use redis_cpp.Net.Stream.{requests, AllWhole, Waits}
use redis_cpp.Net.Events.{Run, hand_over, run_of}

module _ (can_reserve : ℕ → Bool) (max_recv_bytes : ℕ) where
  -- The requests `rs`, of which all but the bytes `t` have arrived: the whole ones among them have been
  -- handed over or are queued, in order, and the rest is in the buffer.
  pub record Holds (rs : List (List Bytes)) (t : Bytes) (r : Run) : Type 0 where
    pub done : List (List Bytes)
    pub rest : List (List Bytes)
    pub all : rs ≡ done ++ rest
    pub in_order : r.dispatched ++ r.conn.command_queue ≡ done
    pub buffered : r.conn.recv_buf ++ t ≡ requests rest
    pub rest_whole : AllWhole can_reserve rest
    pub waits : Waits can_reserve r.conn.recv_buf
    pub alive : r.conn.alive ≡ true
    pub small : length (requests rest) ≤ max_recv_bytes
    pub fits : Fits (requests rest)

  -- And with `n` commands done, no more than one more has been handed over, and none waits for a
  -- connection at rest.
  pub record IsOrderly (rs : List (List Bytes)) (t : Bytes) (n : ℕ) (r : Run) : Type 0 where
    pub holds : Holds rs t r
    pub busy : (r.conn.processing ≡ true) ⊎ (r.conn.command_queue ≡ [])
    pub one_at_a_time : length r.dispatched ≤ n + (if r.conn.processing then 1 else 0)

  abbrev handed_over : Connection → List (List Bytes) → Connection
  handed_over c queue = record c { processing = true; command_queue = queue }

  dispatch_next-cases :
      (c : Connection)
      → ((c.command_queue ≡ []) × (dispatch_next_command c ≡ (c, none)))
        ⊎ ((args : List Bytes) × (queue : List (List Bytes)) × (c.command_queue ≡ args ∷ queue)
            × (dispatch_next_command c ≡ (handed_over c queue, some args)))
  unfolding dispatch_next_command dispatch_front
  dispatch_next-cases c = go c.command_queue refl
    where
      go :
          (q : List (List Bytes))
          → c.command_queue ≡ q
          → ((c.command_queue ≡ []) × (dispatch_next_command c ≡ (c, none)))
            ⊎ ((args : List Bytes) × (queue : List (List Bytes)) × (c.command_queue ≡ args ∷ queue)
                × (dispatch_next_command c ≡ (handed_over c queue, some args)))
      go [] e = inl (e, ap (dispatch_front c) e)
      go (args ∷ queue) e = inr (args, queue, e, ap (dispatch_front c) e)

  -- Handing over the front of the queue of a connection at rest.
  pub dispatch_next-IsOrderly :
      (rs : List (List Bytes)) (t : Bytes) (n : ℕ) (c : Connection) (sent : List (List Bytes))
      → c.processing ≡ false
      → length sent ≤ n
      → Holds rs t (record { conn = c; dispatched = sent })
      → IsOrderly rs t n (run_of sent (dispatch_next_command c))
  unfolding hand_over
  dispatch_next-IsOrderly rs t n c sent idle few h = elim (dispatch_next-cases c) [
    | inl (e, d) ↦ rw d (record { holds = h; busy = inr e; one_at_a_time = omega arith })
    | inr (args, queue, e, d) ↦ rw d (record {
      holds = record {
        done = h.done;
        rest = h.rest;
        all = h.all;
        in_order = append_assoc sent (args ∷ []) queue ∙ ap (λ q. sent ++ q) (sym e) ∙ h.in_order;
        buffered = h.buffered;
        rest_whole = h.rest_whole;
        waits = h.waits;
        alive = h.alive;
        small = h.small;
        fits = h.fits;
      };
      busy = inl refl;
      one_at_a_time = omega (arith, length-append sent (args ∷ []));
    })
  ]

  pub dispatch_if_idle-IsOrderly :
      (rs : List (List Bytes)) (t : Bytes) (n : ℕ) (c : Connection) (sent : List (List Bytes))
      → length sent ≤ n + (if c.processing then 1 else 0)
      → Holds rs t (record { conn = c; dispatched = sent })
      → IsOrderly rs t n (run_of sent (dispatch_if_idle c))
  unfolding dispatch_if_idle hand_over
  dispatch_if_idle-IsOrderly rs t n c sent few h = elim (Bool-cases c.processing) [
    | inl e ↦
        subst
          (λ b. IsOrderly rs t n (run_of sent (if b then (c, none) else dispatch_next_command c)))
          (sym e) (record { holds = h; busy = inl e; one_at_a_time = few })
    | inr e ↦
        subst
          (λ b. IsOrderly rs t n (run_of sent (if b then (c, none) else dispatch_next_command c)))
          (sym e) (dispatch_next-IsOrderly rs t n c sent e (ground arith) h)
  ]
