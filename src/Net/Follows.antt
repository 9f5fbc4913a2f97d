-- ===== src/Net/Follows.antt =====
-- What handle_read and the notice of a completed command leave of a connection: the same connection,
-- with as many more commands on their way as it has handed over, and none waiting at rest.
use redis_cpp.Base.{
  ℕ, ◌+◌, ◌≡◌, refl, sym, ap, ◌∙◌, Bool, true, false, not, Option, none, some, List, [], ◌∷◌, ◌++◌,
  Bytes, ltb, if◌then◌else◌, length, arith, ◌⊎◌, inl, inr, Bool-cases, subst,
}
use redis_cpp.Resp.Parser.{Outcome, returns, throws}
use redis_cpp.Net.Frames.{Extracted, extract_frames}
use redis_cpp.Net.Connection.{
  Connection, ReadEnd, drained, closed, take_chunks, queue_commands, dispatch_front,
  dispatch_next_command, dispatch_if_idle, keep, parse_and_queue, handle_read, command_complete,
}

abbrev pub tasks_of : Option (List Bytes) → ℕ
tasks_of none = 0
tasks_of (some _) = 1

abbrev pub in_progress : Connection → ℕ
in_progress c = if c.processing then 1 else 0

pub record Follows (c d : Connection) (task : Option (List Bytes)) : Type 0 where
  pub fd : d.fd ≡ c.fd
  pub generation : d.generation ≡ c.generation
  pub alive : d.alive ≡ c.alive
  pub count : in_progress d ≡ in_progress c + tasks_of task
  pub busy : (d.processing ≡ true) ⊎ (d.command_queue ≡ [])

dispatch_front-Follows :
    (c : Connection) (q : List (List Bytes))
    → c.processing ≡ false
    → c.command_queue ≡ q
    → Follows c (dispatch_front c q).0 (dispatch_front c q).1
unfolding dispatch_front
dispatch_front-Follows c [] e e' = record {
  fd = refl;
  generation = refl;
  alive = refl;
  count = omega arith;
  busy = inr e';
}
dispatch_front-Follows c (args ∷ q) e e' = record {
  fd = refl;
  generation = refl;
  alive = refl;
  count = rw e refl;
  busy = inl refl;
}

dispatch_next-Follows :
    (c : Connection)
    → c.processing ≡ false
    → Follows c (dispatch_next_command c).0 (dispatch_next_command c).1
unfolding dispatch_next_command
dispatch_next-Follows c e = dispatch_front-Follows c c.command_queue e refl

dispatch_if_idle-Follows :
    (c : Connection) → Follows c (dispatch_if_idle c).0 (dispatch_if_idle c).1
unfolding dispatch_if_idle
dispatch_if_idle-Follows c = by_processing c.processing refl
  where
    by_processing :
        (b : Bool)
        → c.processing ≡ b
        → let k = if b then (c, none) else dispatch_next_command c in Follows c k.0 k.1
    by_processing true e = record {
      fd = refl;
      generation = refl;
      alive = refl;
      count = omega arith;
      busy = inl e;
    }
    by_processing false e = dispatch_next-Follows c e

pub command_complete-Follows :
    (c : Connection)
    → Follows (record c { processing = false }) (command_complete c).0 (command_complete c).1
unfolding command_complete
command_complete-Follows c = dispatch_next-Follows (record c { processing = false }) refl

-- A connection that has only read.
record Reads (c d : Connection) : Type 0 where
  fd : d.fd ≡ c.fd
  generation : d.generation ≡ c.generation
  alive : d.alive ≡ c.alive
  processing : d.processing ≡ c.processing

Reads-Follows :
    (c d x : Connection) (task : Option (List Bytes))
    → Reads c d
    → Follows d x task
    → Follows c x task
Reads-Follows c d x task r f = record {
  fd = f.fd ∙ r.fd;
  generation = f.generation ∙ r.generation;
  alive = f.alive ∙ r.alive;
  count = f.count ∙ ap (λ b. (if b then 1 else 0) + tasks_of task) r.processing;
  busy = f.busy;
}

-- What holds of the connection and the command that a step leaves, if it leaves a connection.
abbrev pub Leaves :
    (Connection → Option (List Bytes) → Type 0)
    → Outcome (Option Connection × Option (List Bytes))
    → Type 0
Leaves P throws = Unit
Leaves P (returns (none, task)) = Unit
Leaves P (returns (some d, task)) = P d task

abbrev LeavesConnection : (Connection → Type 0) → Option Connection → Type 0
LeavesConnection P none = Unit
LeavesConnection P (some d) = P d

take_chunks-Reads :
    (most now : ℕ) (bs : List Bytes) (c d : Connection)
    → Reads c d
    → LeavesConnection (Reads c) (take_chunks most now bs d)
unfolding take_chunks
take_chunks-Reads most now [] c d r = r
take_chunks-Reads most now (b ∷ bs) c d r =
    elim (Bool-cases (ltb most (length (d.recv_buf ++ b)))) [
      | inl e ↦ rw e tt
      | inr e ↦ rw e (
          take_chunks-Reads most now bs c
            (record d { recv_buf = d.recv_buf ++ b; last_active = now })
            (record {
              fd = r.fd;
              generation = r.generation;
              alive = r.alive;
              processing = r.processing;
            }))
    ]

module _ (can_reserve : ℕ → Bool) (most : ℕ) where
  parse_and_queue-Follows :
      (c d : Connection) → Reads c d → Leaves (Follows c) (parse_and_queue can_reserve most d)
  unfolding parse_and_queue
  parse_and_queue-Follows c d r = by_extracted (extract_frames can_reserve d.recv_buf)
    where
      queued : Bool → Bytes → List (List Bytes) → Outcome (Option Connection × Option (List Bytes))
      queued b rest cmds =
          if b
          then returns (
              keep (
                dispatch_if_idle (record d {
                  recv_buf = rest;
                  command_queue = queue_commands cmds d.command_queue;
                })))
          else returns (none, none)

      by_alive :
          (b : Bool) (rest : Bytes) (cmds : List (List Bytes))
          → Leaves (Follows c) (queued b rest cmds)
      by_alive false rest cmds = tt
      by_alive true rest cmds =
          let q = record d {
            recv_buf = rest;
            command_queue = queue_commands cmds d.command_queue;
          } in
          Reads-Follows c q (dispatch_if_idle q).0 (dispatch_if_idle q).1
            (record {
              fd = r.fd;
              generation = r.generation;
              alive = r.alive;
              processing = r.processing;
            })
            (dispatch_if_idle-Follows q)

      by_extracted :
          (o : Outcome Extracted)
          → Leaves
              (Follows c)
              (elim o [ throws ↦ throws | returns x ↦ queued x.alive x.recv_buf x.cmds ])
      by_extracted throws = tt
      by_extracted (returns x) = by_alive x.alive x.recv_buf x.cmds

  pub handle_read-Follows :
      (now : ℕ) (chunks : List Bytes) (end : ReadEnd) (c : Connection)
      → c.alive ≡ true
      → Leaves (Follows c) (handle_read can_reserve most now chunks end c)
  unfolding handle_read
  handle_read-Follows now chunks end c alive =
      subst
        (λ b.
          Leaves (Follows c)
            (if not b then returns (some c, none) else read (take_chunks most now chunks c) end))
        (sym alive)
        (by_chunks (take_chunks most now chunks c) end (
          take_chunks-Reads most now chunks c c
            (record { fd = refl; generation = refl; alive = refl; processing = refl })))
    where
      read : Option Connection → ReadEnd → Outcome (Option Connection × Option (List Bytes))
      read o end' = elim o [
        | none ↦ returns (none, none)
        | some d ↦ (elim end' [
          | closed ↦ returns (none, none)
          | drained ↦ parse_and_queue can_reserve most d
        ])
      ]

      by_chunks :
          (o : Option Connection) (end' : ReadEnd)
          → LeavesConnection (Reads c) o
          → Leaves (Follows c) (read o end')
      by_chunks none end' u = tt
      by_chunks (some d) closed r = tt
      by_chunks (some d) drained r = parse_and_queue-Follows c d r
