-- ===== src/Cooldown/Tests.antt =====
-- The failure records at concrete inputs.
use buddy2api.Prelude.{◌≤◌, ◌≡◌, refl, true, false, none, some, [], ◌∷◌, arith}
use buddy2api.Cooldown.{
  State, active, failure_state, mark_account_success, next_failure, mark_account_failure,
  account_is_cooling_down, backoff, seconds,
}
use buddy2api.Cooldown.Backoff.{backoff_bounds}
use buddy2api.Cooldown.Bounds.{IsSound, Reach, begin, next, failure, Reach-hour}
use buddy2api.Cooldown.Records.{
  is_cooling, fail_at, cooling-mark_account_failure, cooling-mark_account_success,
  cooling-account_is_cooling_down,
}

abbrev start : State
start = record { failures = λ _. none; status = λ _. active }

start-IsSound : IsSound 0 start
start-IsSound = record { at = λ aid f e. cc }

-- Three failures with status 429 at 0, 10 and 20 seconds: 30, 60 and 120 seconds of back-off.
three_failures :
    fail_at 429 (0 ∷ seconds 10 ∷ seconds 20 ∷ []) (failure_state none)
    ≡ record { count = 3; until = seconds 140; last = seconds 20 }
unfolding fail_at next_failure
three_failures = refl

hint_is_capped :
    next_failure (failure_state none) 0 429 (some (seconds 90000))
    ≡ record { count = 1; until = seconds 3600; last = 0 }
unfolding next_failure
hint_is_capped = refl

abbrev limited : State
limited = mark_account_failure 7 429 none (seconds 10) start

backoff_bounds_example : (seconds 5 ≤ backoff 429 9) × (backoff 429 9 ≤ seconds 300)
backoff_bounds_example = backoff_bounds 429 9

cooling-mark_account_failure_example : is_cooling 7 (seconds 39) limited ≡ true
cooling-mark_account_failure_example =
    cooling-mark_account_failure 7 429 none (seconds 10) (seconds 39) start (omega arith)

cooling-mark_account_success_example :
    is_cooling 7 (seconds 11) (mark_account_success 7 limited) ≡ false
cooling-mark_account_success_example = cooling-mark_account_success 7 (seconds 11) limited

limited-Reach : Reach start (seconds 10) limited
limited-Reach = next begin (omega arith) (failure 7 429 none)

Reach-hour_example : is_cooling 7 (seconds 3610) limited ≡ false
unfolding mark_account_failure next_failure
Reach-hour_example = Reach-hour 7 (seconds 3610) start-IsSound limited-Reach (omega arith)

cooling-account_is_cooling_down_example :
    is_cooling 7 (seconds 2001) (account_is_cooling_down 7 (seconds 2000) limited).1
    ≡ is_cooling 7 (seconds 2001) limited
cooling-account_is_cooling_down_example =
    cooling-account_is_cooling_down 7 (seconds 2000) 7 (seconds 2001) limited (omega arith)
