-- ===== src/Net/Reading.antt =====
-- handle_read keeps a connection in order.
use redis_cpp.Base.{
  ℕ, ◌≤◌, ◌≡◌, refl, sym, ap, ◌∙◌, Bool, true, false, Option, some, List, [], ◌∷◌, ◌++◌, Bytes, ltb,
  length, arith, length-append, append_assoc, append-nil,
}
use redis_cpp.Resp.Parser.{returns}
use redis_cpp.Resp.Rounds.{Fits}
use redis_cpp.Net.Frames.{extract_frames}
use redis_cpp.Net.Connection.{
  Connection, drained, take_chunks, queue_commands, dispatch_if_idle, keep, parse_and_queue,
  handle_read,
}
use redis_cpp.Net.Stream.{
  requests, AllWhole, Cut, requests-Cut, length-requests, extract_frames-requests,
}
use redis_cpp.Net.Events.{Run, run_of, joined}
use redis_cpp.Net.Orderly.{Holds, IsOrderly, dispatch_if_idle-IsOrderly}

module _ (can_reserve : ℕ → Bool) (max_recv_bytes : ℕ) where
  abbrev with_buffer : Connection → Bytes → ℕ → Connection
  with_buffer c buf now = record c { recv_buf = buf; last_active = now }

  -- Chunks that stay below the limit are all taken.
  take_chunks-joined :
      (now : ℕ) (bs : List Bytes) (c : Connection)
      → length (c.recv_buf ++ joined bs) ≤ max_recv_bytes
      → (last : ℕ) × (take_chunks max_recv_bytes now bs c
          ≡ some (with_buffer c (c.recv_buf ++ joined bs) last))
  unfolding take_chunks joined
  take_chunks-joined now [] c le = (c.last_active, rw (append-nil c.recv_buf) refl)
  take_chunks-joined now (b ∷ bs) c le =
      let regroup = append_assoc c.recv_buf b (joined bs) in
      let (last, e) =
        take_chunks-joined now bs (record c { recv_buf = c.recv_buf ++ b; last_active = now })
          (rw regroup le) in
      let small : ltb max_recv_bytes (length (c.recv_buf ++ b)) ≡ false =
        ground (arith, le, ap length regroup, length-append (c.recv_buf ++ b) (joined bs)) in
      (last, rw small (e ∙ ap (λ x. some (with_buffer c x last)) regroup))

  queue_commands-AllWhole :
      (cmds queue : List (List Bytes))
      → AllWhole can_reserve cmds
      → queue_commands cmds queue ≡ queue ++ cmds
  unfolding queue_commands
  queue_commands-AllWhole [] queue h = sym (append-nil queue)
  queue_commands-AllWhole ([] ∷ cmds) queue h = absurd (h.0.0 refl)
  queue_commands-AllWhole ((a ∷ args) ∷ cmds) queue h =
      queue_commands-AllWhole cmds (queue ++ (a ∷ args) ∷ []) h.1
      ∙ append_assoc queue ((a ∷ args) ∷ []) cmds

  -- The bytes of a stream of requests, as far as they have come, are cut into requests and queued.
  parse_and_queue-Cut :
      (c : Connection) (rest : List (List Bytes)) (t : Bytes)
      → (k : Cut can_reserve rest c.recv_buf t) → Fits (requests rest)
      → parse_and_queue can_reserve max_recv_bytes c
        ≡ returns (
            keep (
              dispatch_if_idle
                (record c { recv_buf = k.piece; command_queue = c.command_queue ++ k.done })))
  unfolding parse_and_queue
  parse_and_queue-Cut c rest t k f =
      rw (extracted, parse_and_queue)
        (rw (queue_commands-AllWhole k.done c.command_queue k.done_whole) refl)
    where
      shorter : Fits (requests k.done ++ k.piece)
      shorter = omega (
        arith,
        ap (λ x. length (requests x)) k.all,
        length-requests k.done k.rest,
        ap length k.back,
        length-append k.piece t,
        length-append (requests k.done) k.piece,
      )

      extracted :
          extract_frames can_reserve c.recv_buf
          ≡ returns (record { recv_buf = k.piece; cmds = k.done; alive = true })
      extracted =
          ap (extract_frames can_reserve) k.front
          ∙ extract_frames-requests can_reserve k.done k.piece k.done_whole shorter k.waits

  less :
      {rs : List (List Bytes)} {p t : Bytes} (k : Cut can_reserve rs p t)
      → length (requests k.rest) ≤ length (requests rs)
  less k = omega (arith, ap (λ x. length (requests x)) k.all, length-requests k.done k.rest)

  Holds-Cut :
      (rs : List (List Bytes)) (t : Bytes) (c : Connection) (sent : List (List Bytes))
      (chunk : Bytes) (last : ℕ)
      (h : Holds can_reserve max_recv_bytes rs
        (chunk ++ t)
        (record { conn = c; dispatched = sent }))
      (k : Cut can_reserve h.rest (c.recv_buf ++ chunk) t)
      → Holds can_reserve max_recv_bytes rs t (record {
        conn = record (with_buffer c k.piece last) { command_queue = c.command_queue ++ k.done };
        dispatched = sent;
      })
  Holds-Cut rs t c sent chunk last h k = record {
    done = h.done ++ k.done;
    rest = k.rest;
    all = h.all ∙ ap (λ x. h.done ++ x) k.all ∙ sym (append_assoc h.done k.done k.rest);
    in_order = sym (append_assoc sent c.command_queue k.done) ∙ ap (λ x. x ++ k.done) h.in_order;
    buffered = k.back;
    rest_whole = k.rest_whole;
    waits = k.waits;
    alive = h.alive;
    small = omega (arith, h.small, less k);
    fits = omega (arith, h.fits, less k);
  }

  handle_read_taken :
      (now : ℕ) (chunks : List Bytes) (c d : Connection)
      → c.alive ≡ true
      → take_chunks max_recv_bytes now chunks c ≡ some d
      → handle_read can_reserve max_recv_bytes now chunks drained c
        ≡ parse_and_queue can_reserve max_recv_bytes d
  unfolding handle_read
  handle_read_taken now chunks c d alive e = simp (alive, e, handle_read)

  -- A readable socket.
  pub handle_read-IsOrderly :
      (rs : List (List Bytes)) (t : Bytes) (n now : ℕ) (chunks : List Bytes) (r : Run)
      → IsOrderly can_reserve max_recv_bytes rs (joined chunks ++ t) n r
      → (k : Connection × Option (List Bytes)) × (handle_read can_reserve max_recv_bytes now chunks
            drained r.conn
          ≡ returns (keep k))
        × IsOrderly can_reserve max_recv_bytes rs t n (run_of r.dispatched k)
  handle_read-IsOrderly rs t n now chunks r o = (
    dispatch_if_idle queued,
    read,
    dispatch_if_idle-IsOrderly can_reserve max_recv_bytes rs t n queued r.dispatched o.one_at_a_time
        (Holds-Cut rs t r.conn r.dispatched (joined chunks) taken.0 o.holds cut),
  )
    where
      came : (r.conn.recv_buf ++ joined chunks) ++ t ≡ requests o.holds.rest
      came = append_assoc r.conn.recv_buf (joined chunks) t ∙ o.holds.buffered

      below : length (r.conn.recv_buf ++ joined chunks) ≤ max_recv_bytes
      below =
          omega (
            arith,
            o.holds.small,
            ap length came,
            length-append (r.conn.recv_buf ++ joined chunks) t,
          )

      taken :
          (last : ℕ) × (take_chunks max_recv_bytes now chunks r.conn
            ≡ some (with_buffer r.conn (r.conn.recv_buf ++ joined chunks) last))
      taken = take_chunks-joined now chunks r.conn below

      cut : Cut can_reserve o.holds.rest (r.conn.recv_buf ++ joined chunks) t
      cut =
          requests-Cut can_reserve o.holds.rest (r.conn.recv_buf ++ joined chunks) t
            o.holds.rest_whole came

      queued : Connection
      queued = record (with_buffer r.conn cut.piece taken.0) {
        command_queue = r.conn.command_queue ++ cut.done;
      }

      read :
          handle_read can_reserve max_recv_bytes now chunks drained r.conn
          ≡ returns (keep (dispatch_if_idle queued))
      read =
          handle_read_taken now chunks r.conn _ o.holds.alive taken.1
          ∙ parse_and_queue-Cut (with_buffer r.conn (r.conn.recv_buf ++ joined chunks) taken.0)
              o.holds.rest t cut o.holds.fits
