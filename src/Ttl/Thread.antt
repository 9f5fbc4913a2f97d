-- ===== src/Ttl/Thread.antt =====
-- The thread of src/store/TtlManager.cpp (`run`), schedule and the destructor, as steps on what they
-- share. schedule changes the heap under `mu_`; the destructor sets `stop_` without it.
use redis_cpp.Base.{
  ℕ, zero, suc, ◌+◌, ◌≡◌, Bool, true, ◌||◌, [], ◌∷◌, some, Bytes, ℤ, pos, ◌-ℤ◌, wrap64, ltb_ℤ,
  if◌then◌else◌,
}
use redis_cpp.Ttl.Heap.{MinHeap, schedule, pop_due}

-- What the thread waits for: an entry, for 100 ms, or the deadline that was next.
pub data Target : Type 0 where
  for_entry : Target
  until : ℤ → Target

-- Where the thread is: between two waits, without the mutex or about to test; behind a test of the
-- predicate that has failed, with the mutex; in the wait, without it; or at its end.
pub data Spot : Type 0 where
  outside ended : Spot
  tested asleep : Target → Spot

-- `owed` is how many calls of notify are still to be made, by schedule and by the destructor.
pub record TtlManager : Type 0 where
  pub heap : MinHeap
  pub stop : Bool
  pub owed : ℕ
  pub spot : Spot

-- The predicates of the two waits.
unfoldable pub wait_over : Target → Bool → MinHeap → Bool
wait_over for_entry stop [] = stop
wait_over for_entry stop (d ∷ h) = true
wait_over (until next_ms) stop [] = true
wait_over (until next_ms) stop (d ∷ h) = stop || ltb_ℤ d.expire_at_ms next_ms

-- wait_for with its predicate, up to the block.
unfoldable pub wait_for : Target → TtlManager → TtlManager
unfolding wait_over
wait_for w s =
    if wait_over w s.stop s.heap then record s { spot = outside } else record s { spot = tested w }

-- A round of the loop, to its wait; where the next deadline has come there is none.
unfoldable pub next_wait : MinHeap → ℤ → TtlManager → TtlManager
unfolding wait_for
next_wait [] now s = wait_for for_entry s
next_wait (d ∷ h) now s =
    if ltb_ℤ (pos 0) (wrap64 (d.expire_at_ms -ℤ now))
    then wait_for (until d.expire_at_ms) s
    else record s { spot = outside }

unfoldable pub begin_round : ℤ → TtlManager → TtlManager
unfolding next_wait
begin_round now s = if s.stop then record s { spot = ended } else next_wait s.heap now s

-- A notification, or a wake-up without one: a thread that waits tests its predicate again, and no other notices.
unfoldable pub notified : Spot → TtlManager → TtlManager
unfolding wait_for
notified outside s = s
notified ended s = s
notified (tested w) s = s
notified (asleep w) s = wait_for w s

unfoldable pub notify : TtlManager → TtlManager
unfolding notified
notify s = elim s.owed [ zero ↦ s | suc n ↦ notified s.spot (record s { owed = n }) ]

-- schedule, without its notification, and the destructor, without its own.
unfoldable pub push_deadline : Bytes → ℤ → TtlManager → TtlManager
push_deadline key expire_at_ms s = record s {
  heap = schedule s.heap key expire_at_ms;
  owed = s.owed + 1;
}

unfoldable pub set_stop : TtlManager → TtlManager
set_stop s = record s { stop = true; owed = s.owed + 1 }

-- The mutex is free: the thread holds it only behind its test.
abbrev pub IsFree : Spot → Type 0
IsFree outside = Unit {0}
IsFree ended = Unit {0}
IsFree (tested w) = ⊥
IsFree (asleep w) = Unit {0}

pub data Step (s : TtlManager) : TtlManager → Type 0 where
  begins : (now : ℤ) → s.spot ≡ outside → Step s (begin_round now s)
  blocks : (w : Target) → s.spot ≡ tested w → Step s (record s { spot = asleep w })
  times_out : (w : Target) → s.spot ≡ asleep w → Step s (record s { spot = outside })
  pops :
      (now : ℤ) (key : Bytes) (rest : MinHeap)
      → s.spot ≡ outside
      → pop_due now s.heap ≡ some (key, rest)
      → Step s (record s { heap = rest })
  schedules :
      (key : Bytes) (expire_at_ms : ℤ) → IsFree s.spot → Step s (push_deadline key expire_at_ms s)
  stops : Step s (set_stop s)
  notifies : Step s (notify s)
  stirs : Step s (notified s.spot s)

pub data Reached (s : TtlManager) : TtlManager → Type 0 where
  here : Reached s s
  next : {t u : TtlManager} → Reached s t → Step t u → Reached s u
