-- ===== src/RateLimiter/Tests.antt =====
-- The slots at concrete runs.
use buddy2api.Prelude.{ℕ, ◌≤◌, ◌≡◌, refl, true, false, some, List, [], ◌∷◌, arith}
use buddy2api.RateLimiter.Settings.{Limits, unreadable, number, settings}
use buddy2api.RateLimiter.{
  empty, prune, join, enter, leave_queue, release, admit, poll, Event, arrive, wake, finish, step,
  run, max_waiters,
}
use buddy2api.RateLimiter.Consistent.{IsConsistent, empty-IsConsistent}
use buddy2api.RateLimiter.Reachable.{run-IsConsistent}
use buddy2api.RateLimiter.Capacity.{running_for, waiting_for, run-capacity}
use buddy2api.RateLimiter.Pacing.{Paced}
use buddy2api.RateLimiter.Schedule.{run-Paced}

abbrev cfg : Limits
cfg = record { interval = 5000; max_concurrent = 1; queue_timeout = 120000 }

-- Two requests of account 7: the second waits for its slot and for the gap. Much later the slot of
-- account 7 is dropped by an arrival at account 8, and account 7 starts again.
abbrev events : List (ℕ × Event)
events =
    (0, arrive 7 1)
    ∷ (0, wake 1 cfg false)
    ∷ (100, arrive 7 2)
    ∷ (100, wake 2 cfg false)
    ∷ (3000, finish 1)
    ∷ (4999, wake 2 cfg false)
    ∷ (5000, wake 2 cfg false)
    ∷ (6000, finish 2)
    ∷ (700000, arrive 8 3)
    ∷ (700001, arrive 7 4)
    ∷ (700002, wake 4 cfg false)
    ∷ []

starts-run : (run events empty).starts ≡ (7, 700002) ∷ (7, 5000) ∷ (7, 0) ∷ []
unfolding run step enter prune join leave_queue release admit poll
starts-run = refl

-- A coroutine that waited while its account began to cool down gives its slot back at once.
refused :
    let s =
      run
        ((0, arrive 7 1)
          ∷ (0, wake 1 cfg false)
          ∷ (0, arrive 7 2)
          ∷ (0, wake 2 cfg false)
          ∷ (1, finish 1)
          ∷ (5000, wake 2 cfg true)
          ∷ [])
        empty in
    ((s.heap 0).active ≡ 0) × (s.tasks ≡ []) × ((s.heap 0).last_start ≡ some 5000)
unfolding run step enter prune join leave_queue release admit poll
refused = (refl, refl, refl)

settings-unset :
    settings unreadable (number 2500) unreadable
    ≡ record { interval = 0; max_concurrent = 2; queue_timeout = 120000 }
unfolding settings
settings-unset = refl

run-IsConsistent_example : IsConsistent (run events empty)
run-IsConsistent_example = run-IsConsistent events empty empty-IsConsistent

run-capacity_example :
    (running_for 7 (run events empty).tasks ≤ 1)
    × (waiting_for 7 (run events empty).tasks ≤ max_waiters)
run-capacity_example = run-capacity 1 7 events (omega arith)

run-Paced_example : Paced 5000 (run events empty).starts
run-Paced_example = run-Paced 5000 events (omega arith) (omega arith) (omega arith)
