-- ===== src/Net/Order.antt =====
-- A connection hands the requests of its client to the thread pool in order, one at a time, however
-- the network cuts the bytes and whenever the pool reports a command as done.
use redis_cpp.Base.{
  ℕ, suc, ◌+◌, ◌≤◌, ◌≡◌, refl, sym, ap, subst, ◌∙◌, Bool, true, false, Option, some, List, [], ◌∷◌,
  ◌++◌, Bytes, length, arith, append_assoc, append-nil, Bool-cases, ◌⊎◌, inl, inr,
}
use redis_cpp.Resp.Parser.{returns}
use redis_cpp.Resp.Rounds.{Fits}
use redis_cpp.Resp.Steps.{parse_nil}
use redis_cpp.Net.Connection.{
  Connection, make_connection, drained, keep, handle_read, command_complete,
}
use redis_cpp.Net.Stream.{requests, AllWhole, Waits, parse-Whole}
use redis_cpp.Net.Events.{
  Event, readable, completed, Run, run_of, joined, arriving, completions, begin, run_events,
}
use redis_cpp.Net.Orderly.{IsOrderly, dispatch_next-IsOrderly}
use redis_cpp.Net.Reading.{handle_read-IsOrderly}

module _ (can_reserve : ℕ → Bool) (max_recv_bytes : ℕ) where
  -- A notice that a command is done.
  command_complete-IsOrderly :
      (rs : List (List Bytes)) (t : Bytes) (n : ℕ) (r : Run)
      → IsOrderly can_reserve max_recv_bytes rs t n r
      → IsOrderly can_reserve max_recv_bytes rs t
          (suc n)
          (run_of r.dispatched (command_complete r.conn))
  unfolding command_complete
  command_complete-IsOrderly rs t n r o =
      dispatch_next-IsOrderly can_reserve max_recv_bytes rs t (suc n)
        (record r.conn { processing = false }) r.dispatched refl
        (at_most_one (Bool-cases r.conn.processing))
        (record {
          done = o.holds.done;
          rest = o.holds.rest;
          all = o.holds.all;
          in_order = o.holds.in_order;
          buffered = o.holds.buffered;
          rest_whole = o.holds.rest_whole;
          waits = o.holds.waits;
          alive = o.holds.alive;
          small = o.holds.small;
          fits = o.holds.fits;
        })
    where
      at_most_one :
          (r.conn.processing ≡ true) ⊎ (r.conn.processing ≡ false) → length r.dispatched ≤ suc n
      at_most_one c = let few = o.one_at_a_time in ground arith

  run_events-readable :
      (es : List Event) (now : ℕ) (chunks : List Bytes) (r : Run)
      (k : Connection × Option (List Bytes))
      → handle_read can_reserve max_recv_bytes now chunks drained r.conn ≡ returns (keep k)
      → run_events can_reserve max_recv_bytes (readable now chunks ∷ es) r
        ≡ run_events can_reserve max_recv_bytes es (run_of r.dispatched k)
  unfolding run_events
  run_events-readable es now chunks r k h = rw (h, run_events) refl

  run_events-IsOrderly :
      (es : List Event) (rs : List (List Bytes)) (t : Bytes) (n : ℕ) (r : Run)
      → IsOrderly can_reserve max_recv_bytes rs (arriving es ++ t) n r
      → (r' : Run) × (run_events can_reserve max_recv_bytes es r ≡ returns (some r'))
        × IsOrderly can_reserve max_recv_bytes rs t (n + completions es) r'
  unfolding run_events arriving completions
  run_events-IsOrderly [] rs t n r o =
      (r, refl, subst (λ m. IsOrderly can_reserve max_recv_bytes rs t m r) (omega arith) o)
  run_events-IsOrderly (completed ∷ es) rs t n r o =
      let (r', e, o') =
        run_events-IsOrderly es rs t (suc n) (run_of r.dispatched (command_complete r.conn))
          (command_complete-IsOrderly rs (arriving es ++ t) n r o) in
      (r', e, subst (λ m. IsOrderly can_reserve max_recv_bytes rs t m r') (omega arith) o')
  run_events-IsOrderly (readable now chunks ∷ es) rs t n r o =
      let o1 =
        subst (λ x. IsOrderly can_reserve max_recv_bytes rs x n r)
          (append_assoc (joined chunks) (arriving es) t) o in
      let (k, read, o2) =
        handle_read-IsOrderly can_reserve max_recv_bytes rs (arriving es ++ t) n now chunks r o1 in
      let (r', e, o') = run_events-IsOrderly es rs t n (run_of r.dispatched k) o2 in
      (r', run_events-readable es now chunks r k read ∙ e, o')

  begin-IsOrderly :
      (rs : List (List Bytes)) (t : Bytes) (fd gen now : ℕ)
      → AllWhole can_reserve rs
      → t ≡ requests rs
      → length (requests rs) ≤ max_recv_bytes
      → Fits (requests rs)
      → IsOrderly can_reserve max_recv_bytes rs t 0 (begin fd gen now)
  unfolding make_connection
  begin-IsOrderly rs t fd gen now h e small fits = record {
    holds = record {
      done = [];
      rest = rs;
      all = refl;
      in_order = refl;
      buffered = e;
      rest_whole = h;
      waits = λ out. parse_nil can_reserve out 0;
      alive = refl;
      small = small;
      fits = fits;
    };
    busy = inr refl;
    one_at_a_time = omega arith;
  }

  -- A new connection whose socket has yielded all but the bytes `t` of a sequence of requests is
  -- never closed: the requests that are whole have been handed to the pool or wait in its queue,
  -- in order, and its buffer and `t` are the bytes of the others; a connection at rest has no
  -- command waiting, and at most one more command has been handed over than there were notices of
  -- completion. Each request has an argument and a vector that can be reserved, and all together
  -- they are shorter than 2^62 bytes and within the limit on the buffer.
  pub run_events-requests :
      (rs : List (List Bytes)) (es : List Event) (t : Bytes) (fd gen now : ℕ)
      → AllWhole can_reserve rs
      → arriving es ++ t ≡ requests rs
      → length (requests rs) ≤ max_recv_bytes
      → Fits (requests rs)
      → (r : Run) × (run_events can_reserve max_recv_bytes es (begin fd gen now) ≡ returns (some r))
        × IsOrderly can_reserve max_recv_bytes rs t (completions es) r
  run_events-requests rs es t fd gen now h e small fits =
      let (r, e', o) =
        run_events-IsOrderly es rs t 0 (begin fd gen now)
          (begin-IsOrderly rs (arriving es ++ t) fd gen now h e small fits) in
      (r, e', subst (λ n. IsOrderly can_reserve max_recv_bytes rs t n r) (omega arith) o)

  no_rest :
      (rest : List (List Bytes)) (buf : Bytes)
      → AllWhole can_reserve rest
      → buf ≡ requests rest
      → Waits can_reserve buf
      → Fits (requests rest)
      → rest ≡ []
  unfolding requests
  no_rest [] buf h e w f = refl
  no_rest (r ∷ rest) buf h e w f =
      let whole = parse-Whole can_reserve r (requests rest) [] h.0 f in
      let waits = subst (Waits can_reserve) e w [] in absurd (cc (whole, waits))

  -- A new connection whose socket yields the bytes of a sequence of requests, in whatever chunks
  -- and with whatever notices of completed commands between them, has an empty buffer at the end;
  -- the commands that it has handed to the pool and those in its queue are these requests, in
  -- order, and where it is at rest it has handed over all. Each request has an argument and a
  -- vector that can be reserved, and all together they are shorter than 2^62 bytes and within the
  -- limit on the buffer.
  pub run_events-all :
      (rs : List (List Bytes)) (es : List Event) (fd gen now : ℕ)
      → AllWhole can_reserve rs
      → arriving es ≡ requests rs
      → length (requests rs) ≤ max_recv_bytes
      → Fits (requests rs)
      → (r : Run) × (run_events can_reserve max_recv_bytes es (begin fd gen now) ≡ returns (some r))
        × (r.conn.recv_buf ≡ [])
        × (r.dispatched ++ r.conn.command_queue ≡ rs)
        × ((r.conn.processing ≡ true) ⊎ (r.dispatched ≡ rs))
  run_events-all rs es fd gen now h e small fits =
      let (r, e', o) =
        run_events-requests rs es [] fd gen now h (append-nil (arriving es) ∙ e) small fits in
      let buffered : r.conn.recv_buf ≡ requests o.holds.rest =
        sym (append-nil r.conn.recv_buf) ∙ o.holds.buffered in
      let empty =
        no_rest o.holds.rest r.conn.recv_buf o.holds.rest_whole buffered o.holds.waits
          o.holds.fits in
      let whole : r.dispatched ++ r.conn.command_queue ≡ rs =
        o.holds.in_order
        ∙ sym (append-nil o.holds.done)
        ∙ ap (λ x. o.holds.done ++ x) (sym empty)
        ∙ sym o.holds.all in
      (
        r,
        e',
        buffered ∙ ap requests empty ∙ requests_none,
        whole,
        elim o.busy [
          | inl working ↦ inl working
          | inr none_waits ↦
              inr (
                sym (append-nil r.dispatched)
                ∙ ap (λ q. r.dispatched ++ q) (sym none_waits)
                ∙ whole)
        ],
      )
    where
      requests_none : requests [] ≡ []
      requests_none = unfold requests in refl
