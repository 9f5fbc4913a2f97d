-- ===== src/Recovery/Tests.antt =====
-- The two losses at a restart, for a key with a deadline in the past.
use redis_cpp.Base.{
  ◌≡◌, ◌≤◌, ◌+◌, Bytes, length, length-append, refl, ℕ, Bool, true, some, none, List, [], ◌∷◌, sym,
  subst, codes, pos, bytes_eq, wrap64, ◌+ℤ◌, ◌*ℤ◌, arith,
}
use redis_cpp.Decimal.{to_string}
use redis_cpp.Resp.Parser.{returns}
use redis_cpp.Aof.Writer.{
  AofWriter, open_writer, write, write_resp, maybe_fsync, set_text, set_ex_text, expire_text, bulk,
  log_set_ex, log_set, log_expire,
}
use redis_cpp.Aof.Replay.{Call, set_call, set_ex_call, expire_call}
use redis_cpp.Aof.RoundTrip.{AllLoggable, log_of, logged_text, run_calls}
use redis_cpp.Store.Shard
use redis_cpp.Store.State.{KvStore, set_aof, find, put, shard_for, shard_index, hash_from}
use redis_cpp.Store.Ops.{
  get, set_ex, set, expire, retarget, set_internal, deadline, logged, scheduled, is_live,
  is_expired,
}
use redis_cpp.Store.Spec.{sets, sets_ex, expires, run_op}
use redis_cpp.Store.Run.{Timed, run_ops}
use redis_cpp.Commands.Command.{Times}
use redis_cpp.Recovery.Startup.{restore, fresh, restore_next, start, boot}
use redis_cpp.Recovery.Logged.{calls_of_op}
use redis_cpp.Recovery.Restored.{AllAhead}
use redis_cpp.Recovery.Replayed.{calls_of_ops}
use redis_cpp.Recovery.Durable.{started, NoneFailed}
use redis_cpp.Recovery.Boot.{Persists, main_writer, left_file, boot-run_ops}
use redis_cpp.Options.{default_settings}
use redis_cpp.Recovery.Lost.{start_brings_back, start_forgets}

abbrev always : ℕ → Bool
always _ = true

abbrev clock : ℕ → Times
clock _ = record { now = pos 2000; later = pos 2000 }

set_twice-AllLoggable :
    AllLoggable always always
      (set_call (codes "k") (codes "old") ∷ set_ex_call (codes "k") (codes "new") (pos 1500) ∷ [])
unfolding to_string
set_twice-AllLoggable = ground arith

moved-AllLoggable :
    AllLoggable always always
      (set_ex_call (codes "k") (codes "v") (pos 1500) ∷ expire_call (codes "k") (pos 9000) ∷ [])
unfolding to_string
moved-AllLoggable = ground arith

start_brings_back_example :
    (s : KvStore) × (start always always clock
        (some (
          log_of (
            set_call (codes "k") (codes "old")
            ∷ set_ex_call (codes "k") (codes "new") (pos 1500)
            ∷ [])))
        none
      ≡ returns s)
    × ((get s (codes "k") (pos 2001) (pos 2001)).1 ≡ some (codes "old"))
start_brings_back_example =
    start_brings_back always always clock none (codes "k") (codes "old") (codes "new") (pos 1500)
      (pos 2001) (pos 2001) set_twice-AllLoggable refl

start_forgets_example :
    (s : KvStore) × (start always always clock
        (some (
          log_of (
            set_ex_call (codes "k") (codes "v") (pos 1500)
            ∷ expire_call (codes "k") (pos 9000)
            ∷ [])))
        none
      ≡ returns s)
    × ((get s (codes "k") (pos 2001) (pos 2001)).1 ≡ none)
start_forgets_example =
    start_forgets always always clock none (codes "k") (codes "v") (pos 1500) (pos 9000) (pos 2001)
      (pos 2001) moved-AllLoggable refl refl

-- What an earlier run has logged.
abbrev earlier_calls : List Call
earlier_calls = set_call (codes "j") (codes "old") ∷ set_call (codes "i") (codes "u") ∷ []

default-Persists : Persists default_settings
unfolding default_settings
default-Persists = record { use_aof = refl; first = 114; more = codes "edis_cpp.aof"; path = refl }

abbrev before_restart : List Timed
before_restart =
    record { op = sets_ex (codes "k") (codes "v") (pos 1); now = pos 500; later = pos 500 }
    ∷ record { op = sets (codes "j") (codes "w"); now = pos 1100; later = pos 1100 }
    ∷ record { op = expires (codes "j") (pos 9); now = pos 1200; later = pos 1200 }
    ∷ []

-- What `before_restart` logs.
abbrev logged_calls : List Call
logged_calls =
    set_ex_call (codes "k") (codes "v") (pos 1500)
    ∷ set_call (codes "j") (codes "w")
    ∷ expire_call (codes "j") (pos 10200)
    ∷ []

abbrev second_start : KvStore
second_start =
    started always always clock earlier_calls
      (main_writer default_settings (log_of earlier_calls) true 100000)

calls_of_before_restart : calls_of_ops before_restart second_start ≡ logged_calls
unfolding run_calls open_writer restore_next restore calls_of_ops calls_of_op run_op set_ex set
    expire retarget set_internal deadline fresh set_aof logged scheduled find put shard_for
    shard_index is_live is_expired log_set_ex log_set log_expire wrap64 ◌+ℤ◌ ◌*ℤ◌ bytes_eq hash_from
    Shard.find Shard.put
calls_of_before_restart = refl

-- An open writer with room for 100000 bytes, of which at most `n` are written.
abbrev HasRoom : AofWriter → ℕ → Type 0
HasRoom w n = (w.is_open ≡ true) × (w.good ≡ true) × (w.room ≡ 100000) × (length w.file ≤ n)

write_resp-HasRoom :
    (w : AofWriter) (n m : ℕ) (cmd : Bytes)
    → HasRoom w n
    → n + length cmd ≤ m
    → m ≤ 100000
    → HasRoom (write_resp w cmd) m
unfolding write_resp write maybe_fsync
write_resp-HasRoom w n m cmd h le lim = ground (arith, length-append w.file cmd)

first_writer : AofWriter
first_writer = main_writer default_settings (log_of earlier_calls) true 100000

last_writer : AofWriter
unfolding first_writer
last_writer =
    log_expire
      (log_set (log_set_ex first_writer (codes "k") (codes "v") (pos 1500)) (codes "j") (codes "w"))
      (codes "j") (pos 10200)

last_writer-run : (run_ops before_restart second_start).aof ≡ some last_writer
unfolding first_writer last_writer run_ops run_calls open_writer restore_next restore run_op set_ex
    set expire retarget set_internal deadline fresh set_aof logged scheduled find put shard_for
    shard_index is_live is_expired wrap64 ◌+ℤ◌ ◌*ℤ◌ bytes_eq hash_from Shard.find Shard.put
last_writer-run = refl

first_writer-HasRoom : HasRoom first_writer 100
unfolding first_writer open_writer log_of logged_text set_text bulk to_string default_settings
first_writer-HasRoom = (refl, refl, refl, omega arith)

last_writer-HasRoom : HasRoom last_writer 400
unfolding last_writer log_expire log_set log_set_ex set_text set_ex_text expire_text bulk to_string
last_writer-HasRoom =
    write_resp-HasRoom _ 300 400 _
      (write_resp-HasRoom _ 200 300 _
        (write_resp-HasRoom first_writer 100 200 _ first_writer-HasRoom (omega arith) (omega arith))
        (omega arith) (omega arith))
      (omega arith) (omega arith)

nothing_failed : NoneFailed (run_ops before_restart second_start).aof
nothing_failed = subst NoneFailed (sym last_writer-run) last_writer-HasRoom.1

logged_calls-AllLoggable : AllLoggable always always logged_calls
unfolding to_string
logged_calls-AllLoggable = ground arith

logged_calls-AllAhead : AllAhead (pos 2000) (codes "j") logged_calls
unfolding bytes_eq
logged_calls-AllAhead = (λ q. absurd (other q), (tt, (λ q. refl, tt)))
  where
    other : bytes_eq (codes "k") (codes "j") ≡ true → ⊥
    other q = cc

earlier_calls-AllLoggable : AllLoggable always always earlier_calls
earlier_calls-AllLoggable = ground arith

boot-run_ops_example :
    (boot always always clock default_settings
        (some (log_of earlier_calls))
        (some (log_of earlier_calls))
        true
        100000
      ≡ returns second_start)
    × (old : AofWriter) × ((run_ops before_restart second_start).aof ≡ some old)
    × (new : KvStore) × (boot always always clock default_settings
          (some (left_file old))
          (some (left_file old))
          true
          100000
        ≡ returns new)
    × (find new (codes "j") ≡ find (run_ops before_restart second_start) (codes "j"))
boot-run_ops_example =
    boot-run_ops (pos 2000) (codes "j") clock clock (λ i. refl) (λ i. refl) (λ i. refl) (λ i. refl)
      always always default_settings true true 100000 100000 earlier_calls before_restart
      default-Persists (refl, refl, (refl, refl, (refl, refl, tt))) earlier_calls-AllLoggable
      (subst (AllLoggable always always) (sym calls_of_before_restart) logged_calls-AllLoggable)
      nothing_failed (tt, (tt, tt))
      (subst (AllAhead (pos 2000) (codes "j")) (sym calls_of_before_restart) logged_calls-AllAhead)
