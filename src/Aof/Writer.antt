-- ===== src/Aof/Writer.antt =====
-- The writer of src/store/AofWriter.cpp. The file is the bytes that have been handed to the stream, in
-- order; `synced` is how many of them an `fsync` has covered. `can_reopen` says whether the second
-- `::open` of the path, from which the descriptor for `fsync` comes, succeeds. `room` is the number of
-- bytes that the device holds of the file: the write that goes beyond it fails, behind the bytes that
-- still fit, and the stream is then no longer `good`, which makes it drop every later write.
use redis_cpp.Base.{
  ℕ, ◌-◌, Bool, true, false, Option, none, some, [], ◌∷◌, ◌++◌, Bytes, codes, ℤ, pos, length, leb,
  take, if◌then◌else◌,
}
use redis_cpp.Decimal.{to_string}

pub data AofSync : Type 0 where
  always every_second never : AofSync

pub record AofWriter : Type 0 where
  pub path : Bytes
  pub sync_mode : AofSync
  pub is_open : Bool
  pub room : ℕ
  pub good : Bool
  pub file : Bytes
  pub synced : ℕ
  pub can_reopen : Bool
  pub need_fsync : Bool
  pub stop : Bool

-- The constructor. `opened` is what `ofstream::open` finds: `none` if it fails, else the file's bytes.
unfoldable pub open_writer : Bytes → AofSync → Option Bytes → Bool → ℕ → AofWriter
open_writer path sync opened can_reopen room =
    let closed : AofWriter = record {
      path = path;
      sync_mode = sync;
      is_open = false;
      room = room;
      good = true;
      file = [];
      synced = 0;
      can_reopen = can_reopen;
      need_fsync = false;
      stop = false;
    } in
    elim path [
      | [] ↦ closed
      | _ ∷ _ ↦ (elim opened [
        | none ↦ closed
        | some old ↦ record closed { is_open = true; file = old; synced = length old }
      ])
    ]

-- The destructor: the background thread is told to stop, and the file is flushed and closed.
unfoldable pub close_writer : AofWriter → AofWriter
close_writer w = record w { stop = true; is_open = false }

-- flush, and fsync where the path can be opened again
unfoldable pub sync_file : AofWriter → AofWriter
sync_file w = if w.can_reopen then record w { synced = length w.file } else w

maybe_fsync_in : AofSync → AofWriter → AofWriter
unfolding sync_file
maybe_fsync_in always w = sync_file w
maybe_fsync_in every_second w = record w { need_fsync = true }
maybe_fsync_in never w = w

unfoldable pub maybe_fsync : AofWriter → AofWriter
unfolding maybe_fsync_in
maybe_fsync w = maybe_fsync_in w.sync_mode w

-- ofstream::write, whose result the code does not test.
unfoldable pub write : AofWriter → Bytes → AofWriter
write w cmd =
    if w.good
    then (if leb (length (w.file ++ cmd)) w.room
        then record w { file = w.file ++ cmd }
        else record w { file = w.file ++ take (w.room - length w.file) cmd; good = false })
    else w

unfoldable pub write_resp : AofWriter → Bytes → AofWriter
unfolding maybe_fsync write
write_resp w cmd = if w.is_open then maybe_fsync (write w cmd) else w

-- One round of the background thread, behind its sleep of a second.
unfoldable pub fsync_round : AofWriter → AofWriter
unfolding sync_file
fsync_round w =
    let taken = record w { need_fsync = false } in
    if w.need_fsync then (if w.is_open then sync_file taken else taken) else w

unfoldable pub bulk : Bytes → Bytes
bulk s = b'$' ∷ (to_string (pos (length s)) ++ (codes "\r\n" ++ (s ++ codes "\r\n")))

-- The text that each log_ function hands to write_resp.
unfoldable pub set_text : Bytes → Bytes → Bytes
set_text key value = codes "*3\r\n" ++ (bulk (codes "SET") ++ (bulk key ++ bulk value))

unfoldable pub set_ex_text : Bytes → Bytes → ℤ → Bytes
set_ex_text key value expire_at_ms =
    codes "*5\r\n"
    ++ (bulk (codes "SET")
        ++ (bulk key ++ (bulk value ++ (bulk (codes "PXAT") ++ bulk (to_string expire_at_ms)))))

unfoldable pub del_text : Bytes → Bytes
del_text key = codes "*2\r\n" ++ (bulk (codes "DEL") ++ bulk key)

unfoldable pub expire_text : Bytes → ℤ → Bytes
expire_text key expire_at_ms =
    codes "*3\r\n" ++ (bulk (codes "PEXPIREAT") ++ (bulk key ++ bulk (to_string expire_at_ms)))

unfoldable pub log_set : AofWriter → Bytes → Bytes → AofWriter
log_set w key value = write_resp w (set_text key value)

unfoldable pub log_set_ex : AofWriter → Bytes → Bytes → ℤ → AofWriter
log_set_ex w key value expire_at_ms = write_resp w (set_ex_text key value expire_at_ms)

unfoldable pub log_del : AofWriter → Bytes → AofWriter
log_del w key = write_resp w (del_text key)

unfoldable pub log_expire : AofWriter → Bytes → ℤ → AofWriter
log_expire w key expire_at_ms = write_resp w (expire_text key expire_at_ms)
