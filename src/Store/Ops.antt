-- ===== src/Store/Ops.antt =====
-- The operations of src/store/KvStore.cpp. Each takes the values that its calls of `epoch_ms` return,
-- in order, and gives the new state beside its result. The operations that change entries run under
-- `mutation_mutex_`, so each is one step; `get` is two (Store/Background).
use redis_cpp.Base.{
  ℕ, zero, suc, ◌+◌, ◌/◌, Bool, true, false, ◌&&◌, ◌||◌, Option, none, some, List, [], ◌∷◌, ◌++◌,
  Bytes, codes, ℤ, pos, negsuc, ◌+ℤ◌, ◌-ℤ◌, ◌*ℤ◌, wrap64, ltb_ℤ, leb_ℤ, if◌then◌else◌,
}
use redis_cpp.Decimal.{to_string}
use redis_cpp.Aof.Writer.{AofWriter, log_set, log_set_ex, log_del, log_expire}
use redis_cpp.Ttl.Heap.{schedule}
use redis_cpp.Store.Shard.{Entry, Shard}
use redis_cpp.Store.State.{KvStore, bump, find, put, erase}

-- The two tests on an entry that the code writes out: not expired yet, and expired.
unfoldable pub is_live : Entry → ℤ → Bool
is_live e now = ltb_ℤ e.expire_at_ms (pos 0) || ltb_ℤ now e.expire_at_ms

unfoldable pub is_expired : Entry → ℤ → Bool
is_expired e now = leb_ℤ (pos 0) e.expire_at_ms && leb_ℤ e.expire_at_ms now

-- `if (aof_) aof_->…`
unfoldable pub logged : KvStore → (AofWriter → AofWriter) → KvStore
logged s log = elim s.aof [ none ↦ s | some w ↦ record s { aof = some (log w) } ]

-- `if (ttl_mgr_) ttl_mgr_->schedule(key, expire_at_ms)`
unfoldable pub scheduled : KvStore → Bytes → ℤ → KvStore
scheduled s key at_ms = elim s.ttl_mgr [
  | none ↦ s
  | some h ↦ record s { ttl_mgr = some (schedule h key at_ms) }
]

unfoldable pub set_internal : KvStore → Bytes → Bytes → ℤ → KvStore
set_internal s key value at_ms =
    let stored = put s key (record { value = value; expire_at_ms = at_ms }) in
    if ltb_ℤ (pos 0) at_ms then scheduled stored key at_ms else stored

-- KvStore::set; its result is always true.
unfoldable pub set : KvStore → Bytes → Bytes → KvStore × Bool
set s key value =
    let counted = record s { stat_set = bump s.stat_set } in
    (set_internal (logged counted (λ w. log_set w key value)) key value (negsuc 0), true)

unfoldable pub set_absolute : KvStore → Bytes → Bytes → ℤ → KvStore × Bool
set_absolute s key value at_ms =
    let counted = record s { stat_set = bump s.stat_set } in
    (set_internal (logged counted (λ w. log_set_ex w key value at_ms)) key value at_ms, true)

-- epoch_ms() + ttl_s * 1000, in int64_t
unfoldable pub deadline : ℤ → ℤ → ℤ
deadline now ttl_s = wrap64 (now +ℤ wrap64 (ttl_s *ℤ pos 1000))

-- What set_ex does behind its guard is what set_absolute does at the deadline.
unfoldable pub set_ex : KvStore → Bytes → Bytes → ℤ → ℤ → KvStore × Bool
set_ex s key value ttl_s now =
    let at_ms = deadline now ttl_s in
    let counted = record s { stat_set = bump s.stat_set } in
    let refused : KvStore × Bool = (s, false) in
    if leb_ℤ ttl_s (pos 0)
    then refused
    else (set_internal (logged counted (λ w. log_set_ex w key value at_ms)) key value at_ms, true)

-- The second half of get: the entry is looked up again, and goes only if it is expired now.
unfoldable pub evict : KvStore → Bytes → ℤ → KvStore
evict s key now = elim (find s key) [
  | none ↦ s
  | some e ↦
      if is_expired e now then record (erase s key) { stat_expired = bump s.stat_expired } else s
]

unfoldable pub get : KvStore → Bytes → ℤ → ℤ → KvStore × Option Bytes
get s key now later =
    let counted = record s { stat_get = bump s.stat_get } in
    elim (find s key) [
      | none ↦ (counted, none)
      | some e ↦ if is_live e now then (counted, some e.value) else (evict counted key later, none)
    ]

unfoldable pub del : KvStore → Bytes → KvStore × Bool
del s key =
    let counted = record s { stat_del = bump s.stat_del } in
    let gone = erase (logged counted (λ w. log_del w key)) key in
    elim (find s key) [ none ↦ (gone, false) | some _ ↦ (gone, true) ]

-- Behind the search for the key, expire and expire_at are the same: an expired entry is erased,
-- any other gets the new deadline, which is logged and scheduled.
unfoldable pub retarget : KvStore → Bytes → ℤ → ℤ → KvStore × Bool
retarget s key at_ms now = elim (find s key) [
  | none ↦ (s, false)
  | some e ↦ if is_expired e now then (erase s key, false) else (
    scheduled (logged (put s key (record e { expire_at_ms = at_ms })) (λ w. log_expire w key at_ms))
        key at_ms,
    true,
  )
]

unfoldable pub expire : KvStore → Bytes → ℤ → ℤ → ℤ → KvStore × Bool
expire s key ttl_s now later =
    let refused : KvStore × Bool = (s, false) in
    if leb_ℤ ttl_s (pos 0) then refused else retarget s key (deadline now ttl_s) later

unfoldable pub expire_at : KvStore → Bytes → ℤ → ℤ → KvStore × Bool
expire_at s key at_ms now = retarget s key at_ms now

unfoldable pub persist : KvStore → Bytes → ℤ → KvStore × Bool
persist s key now = elim (find s key) [
  | none ↦ (s, false)
  | some e ↦
      let refused : KvStore × Bool = (s, false) in
      let dropped : KvStore × Bool = (erase s key, false) in
      let kept : KvStore × Bool = (
        logged (put s key (record e { expire_at_ms = negsuc 0 })) (λ w. log_set w key e.value),
        true,
      ) in
      if leb_ℤ e.expire_at_ms (negsuc 0) && leb_ℤ (negsuc 0) e.expire_at_ms
      then refused
      else if is_expired e now
      then dropped
      else kept
]

-- The remaining time in seconds, rounded down; -1 for no deadline, -2 for no key.
unfoldable pub remaining : ℤ → ℤ
remaining (pos zero) = negsuc 1
remaining (pos (suc n)) = pos (suc n / 1000)
remaining (negsuc n) = negsuc 1

unfoldable pub ttl : KvStore → Bytes → ℤ → ℤ
unfolding remaining
ttl s key now = elim (find s key) [
  | none ↦ negsuc 1
  | some e ↦
      if ltb_ℤ e.expire_at_ms (pos 0) then negsuc 0 else remaining (wrap64 (e.expire_at_ms -ℤ now))
]

-- The entries of a shard that are live.
unfoldable pub count_shard : Shard → ℤ → ℕ
count_shard [] now = 0
count_shard ((k, e) ∷ m) now =
    let rest = count_shard m now in if is_live e now then rest + 1 else rest

unfoldable pub count_shards : List Shard → ℤ → ℕ
unfolding count_shard
count_shards [] now = 0
count_shards (m ∷ ms) now = count_shard m now + count_shards ms now

unfoldable pub count : KvStore → ℤ → ℕ
unfolding count_shards
count s now = count_shards s.shards now

info_line : Bytes → ℕ → Bytes
info_line name n = name ++ (to_string (pos n) ++ codes "\r\n")

unfoldable pub info : KvStore → ℤ → Bytes
unfolding info_line
info s now =
    codes "# Stats\r\n"
    ++ (info_line (codes "keys:") (count s now)
        ++ (info_line (codes "total_set:") s.stat_set
            ++ (info_line (codes "total_get:") s.stat_get
                ++ (info_line (codes "total_del:") s.stat_del
                    ++ (info_line (codes "total_expired:") s.stat_expired
                        ++ info_line (codes "shards:") s.n_shards)))))
