-- ===== src/Ttl/Overslept.antt =====
-- The thread of src/store/TtlManager.cpp does not sleep past a deadline that schedule has told it; it may
-- miss the destructor.
use redis_cpp.Base.{
  ℕ, zero, suc, ◌+◌, ◌≡◌, refl, sym, subst, Bool, true, false, some, [], ◌∷◌, Bytes, ℤ, pos, ◌-ℤ◌,
  wrap64, ltb_ℤ, leb_ℤ, if◌then◌else◌, arith,
}
use redis_cpp.Ttl.Heap.{Deadline, MinHeap, schedule, pop_due}
use redis_cpp.Ttl.Sorted.{AllFrom, Sorted, push-Sorted, AllFrom-weaken}
use redis_cpp.Ttl.Thread.{
  Target, for_entry, until, Spot, outside, ended, tested, asleep, TtlManager, wait_over, wait_for,
  next_wait, begin_round, notified, notify, push_deadline, set_stop, IsFree, Step, begins, blocks,
  times_out, pops, schedules, stops, notifies, stirs, Reached, here, next,
}

-- There is nothing that the wait misses.
abbrev Fits : Target → MinHeap → Type 0
Fits for_entry h = h ≡ []
Fits (until t) h = AllFrom t h

abbrev OnTime : Spot → MinHeap → ℕ → Type 0
OnTime outside h owed = Unit {0}
OnTime ended h owed = Unit {0}
OnTime (tested w) h owed = Fits w h
OnTime (asleep w) h owed = owed ≡ 0 → Fits w h

record IsPrompt (s : TtlManager) : Type 0 where
  sorted : Sorted s.heap
  on_time : OnTime s.spot s.heap s.owed

wait_over-Fits :
    (w : Target) (stop : Bool) (h : MinHeap) → Sorted h → wait_over w stop h ≡ false → Fits w h
unfolding wait_over
wait_over-Fits for_entry stop [] s e = refl
wait_over-Fits for_entry stop (d ∷ h) s e = absurd cc
wait_over-Fits (until t) stop [] s e = tt
wait_over-Fits (until t) stop (d ∷ h) (a, s) e =
    let from : leb_ℤ t d.expire_at_ms ≡ true = ground arith in
    (from, AllFrom-weaken t d.expire_at_ms h from a)

wait_for-IsPrompt : (w : Target) (s : TtlManager) → Sorted s.heap → IsPrompt (wait_for w s)
unfolding wait_for
wait_for-IsPrompt w s h = by_flag (wait_over w s.stop s.heap) refl
  where
    by_flag :
        (b : Bool)
        → wait_over w s.stop s.heap ≡ b
        → IsPrompt (if b then record s { spot = outside } else record s { spot = tested w })
    by_flag true e = record { sorted = h; on_time = tt }
    by_flag false e = record { sorted = h; on_time = wait_over-Fits w s.stop s.heap h e }

next_wait-IsPrompt :
    (heap : MinHeap) (now : ℤ) (s : TtlManager) → Sorted s.heap → IsPrompt (next_wait heap now s)
unfolding next_wait
next_wait-IsPrompt [] now s h = wait_for-IsPrompt for_entry s h
next_wait-IsPrompt (d ∷ heap) now s h = by_flag (ltb_ℤ (pos 0) (wrap64 (d.expire_at_ms -ℤ now)))
  where
    by_flag :
        (b : Bool)
        → IsPrompt (if b then wait_for (until d.expire_at_ms) s else record s { spot = outside })
    by_flag true = wait_for-IsPrompt (until d.expire_at_ms) s h
    by_flag false = record { sorted = h; on_time = tt }

begin_round-IsPrompt : (now : ℤ) (s : TtlManager) → Sorted s.heap → IsPrompt (begin_round now s)
unfolding begin_round
begin_round-IsPrompt now s h = by_flag s.stop
  where
    by_flag :
        (b : Bool) → IsPrompt (if b then record s { spot = ended } else next_wait s.heap now s)
    by_flag true = record { sorted = h; on_time = tt }
    by_flag false = next_wait-IsPrompt s.heap now s h

notified-IsPrompt :
    (spot : Spot) (s : TtlManager)
    → Sorted s.heap
    → ((w : Target) → spot ≡ tested w → Fits w s.heap)
    → s.spot ≡ spot
    → IsPrompt (notified spot s)
unfolding notified
notified-IsPrompt outside s h f e = record {
  sorted = h;
  on_time = subst (λ p. OnTime p s.heap s.owed) (sym e) tt;
}
notified-IsPrompt ended s h f e = record {
  sorted = h;
  on_time = subst (λ p. OnTime p s.heap s.owed) (sym e) tt;
}
notified-IsPrompt (tested w) s h f e = record {
  sorted = h;
  on_time = subst (λ p. OnTime p s.heap s.owed) (sym e) (f w refl);
}
notified-IsPrompt (asleep w) s h f e = wait_for-IsPrompt w s h

tested-Fits : (s : TtlManager) → IsPrompt s → (w : Target) → s.spot ≡ tested w → Fits w s.heap
tested-Fits s p w e = subst (λ q. OnTime q s.heap s.owed) e p.on_time

notify-IsPrompt : (s : TtlManager) → IsPrompt s → IsPrompt (notify s)
unfolding notify
notify-IsPrompt s p = by_owed s.owed
  where
    by_owed :
        (n : ℕ) → IsPrompt (elim n [ zero ↦ s | suc m ↦ notified s.spot (record s { owed = m }) ])
    by_owed zero = p
    by_owed (suc m) =
        notified-IsPrompt s.spot (record s { owed = m }) p.sorted (tested-Fits s p) refl

-- A change of what is owed, and of the heap where the mutex is free.
owing :
    (spot : Spot) (h h' : MinHeap) (owed n : ℕ)
    → OnTime spot h owed
    → ((w : Target) → spot ≡ tested w → h' ≡ h)
    → OnTime spot h' (n + 1)
owing outside h h' owed n o k = tt
owing ended h h' owed n o k = tt
owing (tested w) h h' owed n o k = subst (Fits w) (sym (k w refl)) o
owing (asleep w) h h' owed n o k = λ e. absurd (omega arith)

free-not_tested : (spot : Spot) (w : Target) → IsFree spot → spot ≡ tested w → ⊥
free-not_tested spot w f e = subst IsFree e f

pop_due-Sorted :
    (now : ℤ) (h : MinHeap) (key : Bytes) (rest : MinHeap)
    → pop_due now h ≡ some (key, rest)
    → Sorted h
    → Sorted rest
unfolding pop_due
pop_due-Sorted now [] key rest e s = absurd cc
pop_due-Sorted now (d ∷ h) key rest e (a, s) = subst Sorted (ground arith) s

Step-IsPrompt : {s t : TtlManager} → Step s t → IsPrompt s → IsPrompt t
unfolding push_deadline schedule set_stop
Step-IsPrompt {s} (begins now e) p = begin_round-IsPrompt now s p.sorted
Step-IsPrompt {s} (blocks w e) p = record { sorted = p.sorted; on_time = λ q. tested-Fits s p w e }
Step-IsPrompt {s} (times_out w e) p = record { sorted = p.sorted; on_time = tt }
Step-IsPrompt {s} (pops now key rest e q) p = record {
  sorted = pop_due-Sorted now s.heap key rest q p.sorted;
  on_time = subst (λ o. OnTime o rest s.owed) (sym e) tt;
}
Step-IsPrompt {s} (schedules key t f) p = record {
  sorted = push-Sorted (record { expire_at_ms = t; key = key }) s.heap p.sorted;
  on_time =
      owing s.spot s.heap _ s.owed s.owed p.on_time (λ w e. absurd (free-not_tested s.spot w f e));
}
Step-IsPrompt {s} stops p = record {
  sorted = p.sorted;
  on_time = owing s.spot s.heap s.heap s.owed s.owed p.on_time (λ w e. refl);
}
Step-IsPrompt {s} notifies p = notify-IsPrompt s p
Step-IsPrompt {s} stirs p = notified-IsPrompt s.spot s p.sorted (tested-Fits s p) refl

Reached-IsPrompt : {s t : TtlManager} → Reached s t → IsPrompt s → IsPrompt t
Reached-IsPrompt here p = p
Reached-IsPrompt (next r x) p = Step-IsPrompt x (Reached-IsPrompt r p)

-- Take a manager with an empty heap and its thread between two waits, and any steps from it of
-- the thread, of schedule, of the destructor's flag, of notifications, of time-outs and of wake-
-- ups without a notification. Where the thread is asleep for the deadline next_ms, and every
-- notification of schedule and of the destructor has been made, every deadline in the heap is
-- next_ms or later.
pub no_deadline_overslept :
    (s t : TtlManager) (next_ms : ℤ)
    → s.heap ≡ []
    → s.spot ≡ outside
    → Reached s t
    → t.spot ≡ asleep (until next_ms)
    → t.owed ≡ 0
    → AllFrom next_ms t.heap
no_deadline_overslept s t next_ms empty start reach sleeping quiet =
    let new : IsPrompt s = record {
      sorted = subst Sorted (sym empty) tt;
      on_time = subst (λ p. OnTime p s.heap s.owed) (sym start) tt;
    } in
    subst (λ p. OnTime p t.heap t.owed) sleeping (Reached-IsPrompt reach new).on_time quiet

-- A manager at any moment between two waits, before the destructor.
abbrev pub at_work : MinHeap → TtlManager
at_work h = record { heap = h; stop = false; owed = 0; spot = outside }

begin_round-ahead :
    (d : Deadline) (h : MinHeap) (now : ℤ)
    → ltb_ℤ (pos 0) (wrap64 (d.expire_at_ms -ℤ now)) ≡ true
    → begin_round now (at_work (d ∷ h))
      ≡ record (at_work (d ∷ h)) { spot = tested (until d.expire_at_ms) }
unfolding begin_round
begin_round-ahead d h now ahead =
    let not_before : ltb_ℤ d.expire_at_ms d.expire_at_ms ≡ false = ground arith in
    rw ahead (rw not_before refl)

-- From any heap with a first deadline that is ahead of `now`, with the thread between two waits,
-- there are steps after which the destructor has set its flag and made its notification and the
-- thread is asleep for that deadline, although the predicate of its wait holds.
pub stop_overslept :
    (d : Deadline) (h : MinHeap) (now : ℤ)
    → ltb_ℤ (pos 0) (wrap64 (d.expire_at_ms -ℤ now)) ≡ true
    → (t : TtlManager) × Reached (at_work (d ∷ h)) t
      × (t.spot ≡ asleep (until d.expire_at_ms))
      × (wait_over (until d.expire_at_ms) t.stop t.heap ≡ true)
      × (t.owed ≡ 0)
stop_overslept d h now ahead = (
  record { heap = d ∷ h; stop = true; owed = 0; spot = asleep (until d.expire_at_ms) },
  unfold set_stop notify in
      next (next (next tested_first stops) notifies) (blocks (until d.expire_at_ms) refl),
  refl,
  unfold wait_over in refl,
  refl,
)
  where
    tested_first :
        Reached
          (at_work (d ∷ h))
          (record (at_work (d ∷ h)) { spot = tested (until d.expire_at_ms) })
    tested_first =
        subst (Reached (at_work (d ∷ h))) (begin_round-ahead d h now ahead)
          (next here (begins now refl))
