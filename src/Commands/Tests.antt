-- ===== src/Commands/Tests.antt =====
-- Messages to a store of four shards.
use redis_cpp.Base.{
  ◌≡◌, refl, none, [], ◌∷◌, codes, pos, if◌then◌else◌, toupper, bytes_eq, arith, replicate,
}
use redis_cpp.Resp.Encode.{simple_string, bulk_string, integer, error}
use redis_cpp.Store.State.{KvStore, find}
use redis_cpp.Store.Sharding.{IsSound}
use redis_cpp.Commands.Command.{Times, px_seconds, name, min_args}
use redis_cpp.Commands.Dispatch.{
  registry, register_command, put_command, find_command, wrong_number, checked, dispatch,
  on_message,
}
use redis_cpp.Commands.Replies.{among, there_once, message_get-after_set, message_del}

abbrev four : KvStore
four = record {
  shards = replicate 4 [];
  n_shards = 4;
  ttl_mgr = none;
  aof = none;
  stat_set = 0;
  stat_get = 0;
  stat_del = 0;
  stat_expired = 0;
}

four-IsSound : IsSound four
four-IsSound = omega arith

abbrev at_one : Times
at_one = record { now = pos 1; later = pos 1 }

px_1999 : px_seconds (pos 1999) ≡ pos 1
unfolding px_seconds
px_1999 = refl

get_alone :
    (on_message registry (codes "get" ∷ []) at_one four).1
    ≡ codes "-ERR wrong number of arguments for 'GET' command\r\n"
unfolding on_message registry register_command put_command find_command dispatch checked
    wrong_number error name min_args toupper bytes_eq
get_alone = refl

message_get-after_set_example :
    ((on_message registry (codes "set" ∷ codes "k" ∷ codes "v" ∷ []) at_one four).1
      ≡ simple_string (codes "OK"))
    × ((on_message registry
          (codes "Get" ∷ codes "k" ∷ [])
          at_one
          (on_message registry (codes "set" ∷ codes "k" ∷ codes "v" ∷ []) at_one four).0).1
        ≡ bulk_string (codes "v"))
unfolding toupper
message_get-after_set_example =
    message_get-after_set (codes "set") (codes "Get") (codes "k") (codes "v") at_one at_one four
      four-IsSound refl refl

message_del_example :
    (find (on_message registry (codes "del" ∷ codes "a" ∷ codes "a" ∷ []) at_one four).0 (codes "a")
      ≡ (if among (codes "a") (codes "a" ∷ codes "a" ∷ []) then none else find four (codes "a")))
    × ((on_message registry (codes "del" ∷ codes "a" ∷ codes "a" ∷ []) at_one four).1
        ≡ integer (pos (there_once (find four) [] (codes "a" ∷ codes "a" ∷ []))))
unfolding toupper
message_del_example =
    message_del (codes "del") (codes "a") (codes "a") (codes "a" ∷ []) at_one four four-IsSound refl
