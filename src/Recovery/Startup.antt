-- ===== src/Recovery/Startup.antt =====
-- The part of src/main.cpp that restores the data: the callbacks that it hands to
-- `AofWriter::replay`, and the order in which the writer is attached.
use redis_cpp.Base.{ℕ, suc, Bool, Option, none, some, [], replicate, Bytes, leb_ℤ, if◌then◌else◌}
use redis_cpp.Resp.Parser.{Outcome, returns, throws}
use redis_cpp.Aof.Writer.{AofWriter, every_second, open_writer}
use redis_cpp.Aof.Replay.{Call, set_call, set_ex_call, del_call, expire_call, replay}
use redis_cpp.Store.State.{KvStore, default_shards, set_aof}
use redis_cpp.Store.Ops.{set, set_absolute, del, expire_at}
use redis_cpp.Commands.Command.{Times}
use redis_cpp.Options.{Settings}

-- The four lambdas. `t.now` is what the lambda reads, and `t.later` what expire_at reads after it.
unfoldable pub restore : Times → Call → KvStore → KvStore
restore t (set_call k v) s = (set s k v).0
restore t (set_ex_call k v at_ms) s = if leb_ℤ at_ms t.now then s else (set_absolute s k v at_ms).0
restore t (del_call k) s = (del s k).0
restore t (expire_call k at_ms) s =
    if leb_ℤ at_ms t.now then (del s k).0 else (expire_at s k at_ms t.later).0

-- The store that main makes: default_shards shards, no writer yet, and a TtlManager.
unfoldable pub fresh : KvStore
fresh = record {
  shards = replicate default_shards [];
  n_shards = default_shards;
  ttl_mgr = some [];
  aof = none;
  stat_set = 0;
  stat_get = 0;
  stat_del = 0;
  stat_expired = 0;
}

-- Restoring, with `clock i` for the i-th call of a lambda. The pair counts the calls.
unfoldable pub restore_next : (ℕ → Times) → Call → ℕ × KvStore → ℕ × KvStore
restore_next clock c (i, s) = (suc i, restore (clock i) c s)

-- The writer of main: `opened` is what `ofstream::open` finds. One that is not open is dropped.
unfoldable pub open_aof : Settings → Option Bytes → Bool → ℕ → Option AofWriter
open_aof settings opened can_reopen room =
    let w = open_writer settings.aof_path every_second opened can_reopen room in
    if settings.use_aof then (if w.is_open then some w else none) else none

-- What main does between the construction of the store and that of the dispatcher, with persistence
-- on: replay with no writer attached, then attach the one that is open.
module _ (can_reserve can_resize : ℕ → Bool) (clock : ℕ → Times) where
  unfoldable pub start : Option Bytes → Option AofWriter → Outcome KvStore
  unfolding restore_next
  start file aof = elim (replay can_reserve can_resize (restore_next clock) file (0, fresh)) [
    | returns ((_, s), _) ↦ returns (set_aof s aof)
    | throws ↦ throws
  ]

  -- main up to the dispatcher: the log is opened to append, and then `file` is what replay opens.
  unfoldable pub boot : Settings → Option Bytes → Option Bytes → Bool → ℕ → Outcome KvStore
  unfolding open_aof
  boot settings opened file can_reopen room =
      let restored = start file (open_aof settings opened can_reopen room) in
      if settings.use_aof then restored else returns fresh
