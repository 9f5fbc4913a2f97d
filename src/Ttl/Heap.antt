-- ===== src/Ttl/Heap.antt =====
-- The priority queue of src/store/TtlManager.hpp, smallest deadline first. `std::priority_queue` leaves
-- the order of equal deadlines open; here the older entry comes first.
use redis_cpp.Base.{Option, none, some, List, [], ◌∷◌, Bytes, ℤ, leb_ℤ, if◌then◌else◌}

-- TtlManager::Entry
pub record Deadline : Type 0 where
  pub expire_at_ms : ℤ
  pub key : Bytes

abbrev pub MinHeap : Type 0
MinHeap = List Deadline

-- heap_.push
unfoldable pub push : Deadline → MinHeap → MinHeap
push d [] = d ∷ []
push d (e ∷ h) =
    let later = push d h in if leb_ℤ e.expire_at_ms d.expire_at_ms then e ∷ later else d ∷ e ∷ h

unfoldable pub schedule : MinHeap → Bytes → ℤ → MinHeap
schedule h key expire_at_ms = push (record { expire_at_ms = expire_at_ms; key = key }) h

-- The test of the loop over expired entries, with its `top` and `pop`: the key whose deadline has
-- come, and what is left.
unfoldable pub pop_due : ℤ → MinHeap → Option (Bytes × MinHeap)
pop_due now [] = none
pop_due now (d ∷ h) = if leb_ℤ d.expire_at_ms now then some (d.key, h) else none
