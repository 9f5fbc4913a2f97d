-- ===== src/Commands/Command.antt =====
-- The command classes of src/commands/CommandDispatcher.cpp: a constructor for each class, and the
-- methods of src/commands/Command.hpp by clauses. `args[i]` is read within the bounds that the
-- dispatcher has checked.
use redis_cpp.Base.{
  ℕ, ◌+◌, ◌/◌, Bool, Option, none, some, List, [], ◌∷◌, map, Bytes, bytes_eq, codes, toupper, ℤ,
  pos, negsuc, leb_ℤ, ltb, ◌==◌, if◌then◌else◌, get_or, length,
}
use mathlib.Core.Option
use redis_cpp.Decimal.{FromChars, no_error, from_chars}
use redis_cpp.Resp.Encode.{simple_string, error, integer, bulk_string, nil_bulk}
use redis_cpp.Store.State.{KvStore}
use redis_cpp.Store.Ops.{set, set_ex, get, del, expire, persist, ttl, count, info}

pub data Command : Type 0 where
  get_command set_command del_command expire_command ttl_command persist_command : Command
  ping_command info_command keys_command dbsize_command command_cmd : Command

unfoldable pub name : Command → Bytes
name get_command = codes "GET"
name set_command = codes "SET"
name del_command = codes "DEL"
name expire_command = codes "EXPIRE"
name ttl_command = codes "TTL"
name persist_command = codes "PERSIST"
name ping_command = codes "PING"
name info_command = codes "INFO"
name keys_command = codes "KEYS"
name dbsize_command = codes "DBSIZE"
name command_cmd = codes "COMMAND"

unfoldable pub min_args : Command → ℕ
min_args get_command = 2
min_args set_command = 3
min_args del_command = 2
min_args expire_command = 3
min_args ttl_command = 2
min_args persist_command = 2
min_args ping_command = 1
min_args info_command = 1
min_args keys_command = 2
min_args dbsize_command = 1
min_args command_cmd = 1

-- `none` is -1, no limit.
unfoldable pub max_args : Command → Option ℕ
max_args get_command = some 2
max_args set_command = some 5
max_args del_command = none
max_args expire_command = some 3
max_args ttl_command = some 2
max_args persist_command = some 2
max_args ping_command = some 2
max_args info_command = some 2
max_args keys_command = some 2
max_args dbsize_command = some 1
max_args command_cmd = none

-- What the calls of epoch_ms within one command return, in order.
pub record Times : Type 0 where
  pub now : ℤ
  pub later : ℤ

abbrev pub arg : List Bytes → ℕ → Bytes
arg args i = get_or args i []

-- `ec != std::errc{} || n <= 0`, on what from_chars leaves in a variable that began as 0.
unfoldable pub positive : FromChars → Option ℤ
positive r = elim r.ec [
  | no_error ↦ (if leb_ℤ r.value (pos 0) then none else some r.value)
  | _ ↦ none
]

abbrev ok_or_oom : KvStore × Bool → KvStore × Bytes
ok_or_oom (s, done) =
    (s, if done then simple_string (codes "OK") else error (codes "out of memory"))

abbrev one_or_zero : KvStore × Bool → KvStore × Bytes
one_or_zero (s, done) = (s, integer (if done then pos 1 else pos 0))

-- std::max<int64_t>(1, ms / 1000); the division of a positive number rounds down.
unfoldable pub px_seconds : ℤ → ℤ
px_seconds (pos ms) = if ltb (ms / 1000) 1 then pos 1 else pos (ms / 1000)
px_seconds (negsuc ms) = pos 1

set_for : KvStore → Bytes → Bytes → ℤ → Option ℤ → KvStore × Bytes
set_for s key value now none = (s, error (codes "invalid expire time in 'set' command"))
set_for s key value now (some secs) = ok_or_oom (set_ex s key value secs now)

-- SetCommand::execute with five arguments
unfoldable pub set_with_option : List Bytes → Times → KvStore → KvStore × Bytes
unfolding set_for positive px_seconds
set_with_option args t s =
    let opt = map toupper (arg args 3) in
    let n = positive (from_chars (arg args 4)) in
    if bytes_eq opt (codes "EX")
    then set_for s (arg args 1) (arg args 2) t.now n
    else if bytes_eq opt (codes "PX")
    then set_for s (arg args 1) (arg args 2) t.now (Option.map px_seconds n)
    else (s, error (codes "syntax error"))

unfoldable pub execute_set : List Bytes → Times → KvStore → KvStore × Bytes
unfolding set_with_option
execute_set args t s =
    let syntax : KvStore × Bytes = (s, error (codes "syntax error")) in
    if length args == 3
    then ok_or_oom (set s (arg args 1) (arg args 2))
    else if length args == 5
    then set_with_option args t s
    else syntax

-- for (i = 1; i < args.size(); ++i) if (store.del(args[i])) ++deleted;
unfoldable pub del_keys : List Bytes → ℕ → KvStore → KvStore × ℕ
del_keys [] deleted s = (s, deleted)
del_keys (key ∷ keys) deleted s =
    let (t, gone) = del s key in del_keys keys (if gone then deleted + 1 else deleted) t

unfoldable pub execute_del : List Bytes → KvStore → KvStore × Bytes
unfolding del_keys
execute_del [] s = (s, integer (pos 0))
execute_del (_ ∷ keys) s = let (t, deleted) = del_keys keys 0 s in (t, integer (pos deleted))

expire_for : KvStore → Bytes → Times → Option ℤ → KvStore × Bytes
expire_for s key t none = (s, error (codes "value is not an integer or out of range"))
expire_for s key t (some secs) = one_or_zero (expire s key secs t.now t.later)

unfoldable pub bulk_or_nil : KvStore × Option Bytes → KvStore × Bytes
bulk_or_nil (s, none) = (s, nil_bulk)
bulk_or_nil (s, some value) = (s, bulk_string value)

ping : List Bytes → Bytes
ping args = if ltb 1 (length args) then bulk_string (arg args 1) else simple_string (codes "PONG")

unfoldable pub execute : Command → List Bytes → Times → KvStore → KvStore × Bytes
unfolding execute_set execute_del expire_for bulk_or_nil ping positive
execute get_command args t s = bulk_or_nil (get s (arg args 1) t.now t.later)
execute set_command args t s = execute_set args t s
execute del_command args t s = execute_del args s
execute expire_command args t s = expire_for s (arg args 1) t (positive (from_chars (arg args 2)))
execute ttl_command args t s = (s, integer (ttl s (arg args 1) t.now))
execute persist_command args t s = one_or_zero (persist s (arg args 1) t.now)
execute ping_command args t s = (s, ping args)
execute info_command args t s = (s, bulk_string (info s t.now))
execute keys_command args t s = (s, bulk_string (info s t.now))
execute dbsize_command args t s = (s, integer (pos (count s t.now)))
execute command_cmd args t s = (s, codes "*0\r\n")
