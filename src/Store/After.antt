-- ===== src/Store/After.antt =====
-- What a key's entry is behind a set and behind a del, from the refinement.
use redis_cpp.Base.{◌≡◌, none, Bytes, bytes_eq, pos, negsuc, if◌then◌else◌}
use redis_cpp.Store.State.{KvStore, find}
use redis_cpp.Store.Sharding.{IsSound}
use redis_cpp.Store.Ops.{set, del}
use redis_cpp.Store.Spec.{Op, sets, dels, run_op, spec_op, entry}
use redis_cpp.Store.Refine.{Agrees, run_op-refines-spec_op}

module _ (s : KvStore) (k : Bytes) (h : IsSound s) where
  run_op_lem :
      (op : Op) → Agrees (run_op op (pos 0) (pos 0) s) (spec_op op (pos 0) (pos 0) (find s))
  run_op_lem op = run_op-refines-spec_op op (pos 0) (pos 0) s h

  pub set-IsSound : (v : Bytes) → IsSound (set s k v).0
  unfolding run_op
  set-IsSound v = (run_op_lem (sets k v)).sound

  pub find-set :
      (v j : Bytes) → find (set s k v).0 j ≡ (if bytes_eq k j then entry v (negsuc 0) else find s j)
  unfolding run_op spec_op
  find-set v j = (run_op_lem (sets k v)).found j

  pub del-IsSound : IsSound (del s k).0
  unfolding run_op
  del-IsSound = (run_op_lem (dels k)).sound

  pub find-del : (j : Bytes) → find (del s k).0 j ≡ (if bytes_eq k j then none else find s j)
  unfolding run_op spec_op
  find-del j = (run_op_lem (dels k)).found j
