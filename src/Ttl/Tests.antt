-- ===== src/Ttl/Tests.antt =====
-- The thread of the TtlManager with one deadline.
use redis_cpp.Base.{◌≡◌, refl, true, false, [], ◌∷◌, codes, pos, wrap64, ◌-ℤ◌}
use redis_cpp.Ttl.Heap.{Deadline, schedule, push}
use redis_cpp.Ttl.Sorted.{AllFrom}
use redis_cpp.Ttl.Thread.{
  until, asleep, TtlManager, wait_over, wait_for, next_wait, begin_round, notify, push_deadline,
  begins, blocks, schedules, notifies, Reached, here, next,
}
use redis_cpp.Ttl.Overslept.{at_work, no_deadline_overslept, stop_overslept}

abbrev first_deadline : Deadline
first_deadline = record { expire_at_ms = pos 5000; key = codes "k" }

abbrev sleeper : TtlManager
sleeper = record {
  heap = first_deadline ∷ [];
  stop = false;
  owed = 0;
  spot = asleep (until (pos 5000));
}

sleeper-Reached : Reached (at_work []) sleeper
unfolding push_deadline schedule push notify begin_round next_wait wait_for wait_over wrap64 ◌-ℤ◌
sleeper-Reached =
    next
      (next (next (next here (schedules (codes "k") (pos 5000) tt)) notifies)
        (begins (pos 1000) refl))
      (blocks (until (pos 5000)) refl)

no_deadline_overslept_example : AllFrom (pos 5000) sleeper.heap
no_deadline_overslept_example =
    no_deadline_overslept (at_work []) sleeper (pos 5000) refl refl sleeper-Reached refl refl

stop_overslept_example :
    (t : TtlManager) × Reached (at_work (first_deadline ∷ [])) t
    × (t.spot ≡ asleep (until (pos 5000)))
    × (wait_over (until (pos 5000)) t.stop t.heap ≡ true)
    × (t.owed ≡ 0)
stop_overslept_example = stop_overslept first_deadline [] (pos 1000) (unfold wrap64 ◌-ℤ◌ in refl)
