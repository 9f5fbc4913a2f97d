-- ===== src/Store/Background.antt =====
-- The loop of the background thread of src/store/TtlManager.cpp, with the callback that KvStore gives
-- it (`on_ttl_expired`).
use redis_cpp.Base.{ℕ, zero, suc, ◌+◌, Option, none, some, Bytes, ℤ, if◌then◌else◌}
use redis_cpp.Ttl.Heap.{pop_due}
use redis_cpp.Store.State.{KvStore, bump, find, erase}
use redis_cpp.Store.Ops.{is_expired}

unfoldable pub on_ttl_expired : KvStore → Bytes → ℤ → KvStore
on_ttl_expired s key now = elim (find s key) [
  | none ↦ s
  | some e ↦
      if is_expired e now then record (erase s key) { stat_expired = bump s.stat_expired } else s
]

-- One round of the inner loop: a due entry is popped, and its key handed to the callback. `now` is
-- what the loop has read and `later` what the callback reads; `none` ends the loop.
unfoldable pub expire_step : KvStore → ℤ → ℤ → Option KvStore
expire_step s now later = elim s.ttl_mgr [
  | none ↦ none
  | some h ↦ (elim (pop_due now h) [
    | none ↦ none
    | some (key, rest) ↦ some (on_ttl_expired (record s { ttl_mgr = some rest }) key later)
  ])
]

-- The loop, while nobody else schedules. `clock i` is what round `i` reads before its test, and
-- `clock' i` what its callback reads.
unfoldable pub expire_loop : ℕ → (ℕ → ℤ) → (ℕ → ℤ) → ℕ → KvStore → KvStore
expire_loop zero clock clock' i s = s
expire_loop (suc fuel) clock clock' i s = elim (expire_step s (clock i) (clock' i)) [
  | none ↦ s
  | some t ↦ expire_loop fuel clock clock' (i + 1) t
]
