-- ===== src/Store/Spec.antt =====
-- What KvStore promises, with no shards, counters, log or heap: a map from keys to entries, on which a
-- key counts as there while its deadline is not reached. `run_op` runs an operation of the code.
use redis_cpp.Base.{
  Bool, true, false, ◌&&◌, Option, none, some, Bytes, bytes_eq, ℤ, pos, negsuc, ◌-ℤ◌, wrap64, ltb_ℤ,
  leb_ℤ, if◌then◌else◌,
}
use redis_cpp.Store.Shard.{Entry}
use redis_cpp.Store.State.{KvStore}
use redis_cpp.Store.Ops.{
  is_live, deadline, remaining, set, set_absolute, set_ex, get, del, expire, expire_at, persist,
  ttl,
}
use redis_cpp.Store.Background.{on_ttl_expired}

pub data Op : Type 0 where
  sets : Bytes → Bytes → Op
  sets_ex : Bytes → Bytes → ℤ → Op
  sets_absolute : Bytes → Bytes → ℤ → Op
  gets dels persists ttls lapses : Bytes → Op
  expires expires_at : Bytes → ℤ → Op

pub data Reply : Type 0 where
  flag : Bool → Reply
  bulk : Option Bytes → Reply
  seconds : ℤ → Reply
  nothing : Reply

abbrev pub flagged : KvStore × Bool → KvStore × Reply
flagged (s, b) = (s, flag b)

abbrev fetched : KvStore × Option Bytes → KvStore × Reply
fetched (s, o) = (s, bulk o)

-- `now` and `later` are what the first and the second call of epoch_ms return.
unfoldable pub run_op : Op → ℤ → ℤ → KvStore → KvStore × Reply
run_op (sets k v) now later s = flagged (set s k v)
run_op (sets_ex k v n) now later s = flagged (set_ex s k v n now)
run_op (sets_absolute k v t) now later s = flagged (set_absolute s k v t)
run_op (gets k) now later s = fetched (get s k now later)
run_op (dels k) now later s = flagged (del s k)
run_op (expires k n) now later s = flagged (expire s k n now later)
run_op (expires_at k t) now later s = flagged (expire_at s k t now)
run_op (persists k) now later s = flagged (persist s k now)
run_op (ttls k) now later s = (s, seconds (ttl s k now))
run_op (lapses k) now later s = (on_ttl_expired s k now, nothing)

abbrev pub Model : Type 0
Model = Bytes → Option Entry

abbrev pub assign : Model → Bytes → Option Entry → Model
assign f k o j = if bytes_eq k j then o else f j

abbrev pub entry : Bytes → ℤ → Option Entry
entry v t = some (record { value = v; expire_at_ms = t })

-- The entry of a key, if it is live; a key that is not is dropped.
abbrev pub with_live : Model → Bytes → ℤ → (Entry → Model × Reply) → Reply → Model × Reply
with_live f k now body missing = elim (f k) [
  | none ↦ (f, missing)
  | some e ↦
      (let dropped : Model × Reply = (assign f k none, missing) in
        let there = body e in if is_live e now then there else dropped)
]

-- Dropping a key that is not live at `now`.
abbrev pub lapse : Model → Bytes → ℤ → Model
lapse f k now = elim (f k) [ none ↦ f | some e ↦ (if is_live e now then f else assign f k none) ]

unfoldable pub spec_op : Op → ℤ → ℤ → Model → Model × Reply
unfolding remaining
spec_op (sets k v) now later f = (assign f k (entry v (negsuc 0)), flag true)
spec_op (sets_ex k v n) now later f =
    if leb_ℤ n (pos 0) then (f, flag false) else (assign f k (entry v (deadline now n)), flag true)
spec_op (sets_absolute k v t) now later f = (assign f k (entry v t), flag true)
spec_op (gets k) now later f = elim (f k) [
  | none ↦ (f, bulk none)
  | some e ↦ (if is_live e now then (f, bulk (some e.value)) else (lapse f k later, bulk none))
]
spec_op (dels k) now later f =
    (assign f k none, elim (f k) [ none ↦ flag false | some _ ↦ flag true ])
spec_op (expires k n) now later f =
    if leb_ℤ n (pos 0)
    then (f, flag false)
    else with_live f k later (λ e. (assign f k (entry e.value (deadline now n)), flag true))
        (flag false)
spec_op (expires_at k t) now later f =
    with_live f k now (λ e. (assign f k (entry e.value t), flag true)) (flag false)
spec_op (persists k) now later f =
    with_live f k now
      (λ e.
        if leb_ℤ e.expire_at_ms (negsuc 0) && leb_ℤ (negsuc 0) e.expire_at_ms
        then (f, flag false)
        else (assign f k (entry e.value (negsuc 0)), flag true))
      (flag false)
spec_op (ttls k) now later f = (
  f,
  seconds (elim (f k) [
    | none ↦ negsuc 1
    | some e ↦
        if ltb_ℤ e.expire_at_ms (pos 0)
        then negsuc 0
        else remaining (wrap64 (e.expire_at_ms -ℤ now))
  ]),
)
spec_op (lapses k) now later f = (lapse f k now, nothing)
