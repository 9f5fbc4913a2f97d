-- ===== src/Recovery/Boot.antt =====
-- src/main.cpp is started on a log, serves, is shut down, and is started again.
use redis_cpp.Base.{
  ℕ, ◌≡◌, refl, sym, ap, ◌∙◌, Bool, true, Option, some, List, ◌∷◌, Bytes, ℤ, leb_ℤ,
}
use redis_cpp.Resp.Parser.{returns}
use redis_cpp.Aof.Writer.{AofWriter, every_second, open_writer, close_writer}
use redis_cpp.Aof.Replay.{Call}
use redis_cpp.Aof.RoundTrip.{AllLoggable, log_of}
use redis_cpp.Store.State.{KvStore, find}
use redis_cpp.Store.Run.{Timed, run_ops}
use redis_cpp.Commands.Command.{Times}
use redis_cpp.Options.{Settings}
use redis_cpp.Recovery.Startup.{start, boot}
use redis_cpp.Recovery.Restored.{AllAhead}
use redis_cpp.Recovery.Replayed.{calls_of_ops, AllBefore}
use redis_cpp.Recovery.Durable.{started, NoneFailed, start-run_ops}

-- Settings with persistence on, and a path.
pub record Persists (settings : Settings) : Type 0 where
  pub use_aof : settings.use_aof ≡ true
  pub first : ℕ
  pub more : Bytes
  pub path : settings.aof_path ≡ first ∷ more

-- The writer that main opens on a file that holds `text`.
abbrev pub main_writer : Settings → Bytes → Bool → ℕ → AofWriter
main_writer settings text can_reopen room =
    open_writer settings.aof_path every_second (some text) can_reopen room

module _ (settings : Settings) (p : Persists settings) (text : Bytes) (can_reopen : Bool)
    (room : ℕ) where
  main_writer-open : (main_writer settings text can_reopen room).is_open ≡ true
  unfolding open_writer
  main_writer-open = rw (p.path, open_writer) refl

  main_writer-file : (main_writer settings text can_reopen room).file ≡ text
  unfolding open_writer
  main_writer-file = rw (p.path, open_writer) refl

  boot-start :
      (can_reserve can_resize : ℕ → Bool) (clock : ℕ → Times) (file : Option Bytes)
      → boot can_reserve can_resize clock settings (some text) file can_reopen room
        ≡ start can_reserve can_resize clock file (some (main_writer settings text can_reopen room))
  unfolding boot
  boot-start can_reserve can_resize clock file = rw (p.use_aof, main_writer-open) refl

-- The file that a server leaves: its store is destroyed, and then its writer.
abbrev pub left_file : AofWriter → Bytes
left_file w = (close_writer w).file

module _ (restart : ℤ) (j : Bytes) (clock clock' : ℕ → Times)
    (le : (i : ℕ) → leb_ℤ (clock i).now restart ≡ true)
    (le' : (i : ℕ) → leb_ℤ (clock i).later restart ≡ true)
    (ge : (i : ℕ) → leb_ℤ (clock' i).now restart ≡ true)
    (ge' : (i : ℕ) → leb_ℤ (clock' i).later restart ≡ true) (can_reserve can_resize : ℕ → Bool)
    (settings : Settings) (can_reopen can_reopen' : Bool) (room room' : ℕ) where
  -- The store of the first start.
  abbrev pub first_store : List Call → KvStore
  first_store cs =
      started can_reserve can_resize clock cs (main_writer settings (log_of cs) can_reopen room)

  -- The process starts with persistence on, and a path, on a log that is the records of any
  -- calls, each of them whole, which main opens to append and replays; it runs any operations on
  -- its store and is shut down, and it starts again on the file that its writer leaves. Both
  -- starts give a store. If all times of the operations and of both replays are at most
  -- `restart`, and every deadline that was logged under the key `j`, before or during the run, is
  -- later than that, the second store has under `j` exactly what the first one had at the end of
  -- the run, its deadline included. Each record must be one that replay-log_of allows, and no
  -- write of the file has failed when the run ends.
  pub boot-run_ops :
      (cs : List Call) (os : List Timed)
      → Persists settings
      → AllBefore restart os
      → AllLoggable can_reserve can_resize cs
      → AllLoggable can_reserve can_resize (calls_of_ops os (first_store cs))
      → NoneFailed (run_ops os (first_store cs)).aof
      → AllAhead restart j cs
      → AllAhead restart j (calls_of_ops os (first_store cs))
      → (boot can_reserve can_resize clock settings
            (some (log_of cs))
            (some (log_of cs))
            can_reopen
            room
          ≡ returns (first_store cs))
        × (old : AofWriter) × ((run_ops os (first_store cs)).aof ≡ some old)
        × (new : KvStore) × (boot can_reserve can_resize clock' settings
              (some (left_file old))
              (some (left_file old))
              can_reopen'
              room'
            ≡ returns new)
        × (find new j ≡ find (run_ops os (first_store cs)) j)
  unfolding close_writer
  boot-run_ops cs os p b l l' good a a' =
      let w = main_writer settings (log_of cs) can_reopen room in
      let file = main_writer-file settings p (log_of cs) can_reopen room in
      let r =
        start-run_ops restart j clock clock' le le' ge ge' can_reserve can_resize w cs os
          (λ old. some (main_writer settings old.file can_reopen' room'))
          (main_writer-open settings p (log_of cs) can_reopen room) file b l l' good a a' in
      (
        boot-start settings p (log_of cs) can_reopen room can_reserve can_resize clock
              (some (log_of cs))
            ∙ ap (λ t. start can_reserve can_resize clock (some t) (some w)) (sym file)
            ∙ r.0,
        r.1,
        r.2,
        r.3,
        boot-start settings p r.1.file can_reopen' room' can_reserve can_resize clock'
              (some r.1.file)
            ∙ r.4,
        r.5,
      )
