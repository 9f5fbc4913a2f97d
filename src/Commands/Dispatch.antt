-- ===== src/Commands/Dispatch.antt =====
-- The dispatcher of src/commands/CommandDispatcher.cpp, and the message handler of src/main.cpp.
use redis_cpp.Base.{
  ℕ, Bool, false, Option, none, some, List, [], ◌∷◌, ◌++◌, map, Bytes, bytes_eq, codes, toupper,
  ltb, if◌then◌else◌, length,
}
use redis_cpp.Resp.Encode.{error}
use redis_cpp.Store.State.{KvStore}
use redis_cpp.Commands.Command.{
  Command, get_command, set_command, del_command, expire_command, ttl_command, persist_command,
  ping_command, info_command, keys_command, dbsize_command, command_cmd, name, min_args, max_args,
  Times, arg, execute,
}

-- `commands_`, the map from names to commands
abbrev pub Registry : Type 0
Registry = List (Bytes × Command)

-- commands_[name] = cmd
unfoldable pub put_command : Bytes → Command → Registry → Registry
put_command n c [] = (n, c) ∷ []
put_command n c ((m, d) ∷ r) =
    let rest = put_command n c r in if bytes_eq m n then (m, c) ∷ r else (m, d) ∷ rest

unfoldable pub register_command : Registry → Command → Registry
unfolding put_command name
register_command r c = put_command (name c) c r

unfoldable pub find_command : Bytes → Registry → Option Command
find_command n [] = none
find_command n ((m, c) ∷ r) = if bytes_eq m n then some c else find_command n r

register_all : Registry → List Command → Registry
unfolding register_command
register_all r [] = r
register_all r (c ∷ cs) = register_all (register_command r c) cs

-- The constructor.
unfoldable pub registry : Registry
unfolding register_all
registry = register_all [] (
    get_command ∷ set_command ∷ del_command ∷ expire_command ∷ ttl_command ∷ persist_command
    ∷ ping_command ∷ info_command ∷ keys_command ∷ dbsize_command ∷ command_cmd ∷ [])

unfoldable pub unknown_command : List Bytes → Bytes
unknown_command args =
    let second = codes "'" ++ (arg args 1 ++ codes "'") in
    error (
      codes "unknown command '"
      ++ (arg args 0
          ++ (codes "', with args beginning with: "
              ++ (if ltb 1 (length args) then second else []))))

unfoldable pub wrong_number : Command → Bytes
wrong_number c = error (codes "wrong number of arguments for '" ++ (name c ++ codes "' command"))

too_many : Command → ℕ → Bool
too_many c argc = elim (max_args c) [ none ↦ false | some most ↦ ltb most argc ]

unfoldable pub checked : Command → List Bytes → Times → KvStore → KvStore × Bytes
unfolding too_many
checked c args t s =
    if ltb (length args) (min_args c)
    then (s, wrong_number c)
    else if too_many c (length args)
    then (s, wrong_number c)
    else execute c args t s

unfoldable pub dispatch : Registry → List Bytes → Times → KvStore → KvStore × Bytes
unfolding find_command
dispatch r [] t s = (s, error (codes "empty command"))
dispatch r (n ∷ args) t s = elim (find_command n r) [
  | none ↦ (s, unknown_command (n ∷ args))
  | some c ↦ checked c (n ∷ args) t s
]

-- `on_message` of main: the command's name in upper case, and the reply that is sent.
unfoldable pub on_message : Registry → List Bytes → Times → KvStore → KvStore × Bytes
on_message r [] t s = dispatch r [] t s
on_message r (n ∷ args) t s = dispatch r (map toupper n ∷ args) t s
