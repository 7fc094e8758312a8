-- ===== src/Cooldown/Records.antt =====
-- What the operations on the failure records do to the answers that follow.
use buddy2api.Prelude.{
  ℕ, ◌+◌, ◌≤◌, ◌<◌, max, ◌≡◌, refl, Bool, true, false, Option, none, some, List, [], ◌∷◌, length,
  arith,
}
use buddy2api.Cooldown.{
  State, Failure, failure_state, mark_account_success, next_failure, mark_account_failure,
  account_is_cooling_down, backoff, streak, failure_decay,
}
use buddy2api.Cooldown.Backoff.{next_failure_bounds, next_failure-until}

abbrev pub is_cooling : ℕ → ℕ → State → Bool
is_cooling aid t s = (account_is_cooling_down aid t s).0

cooling_lem :
    (aid t : ℕ) (s : State)
    → 0 < (failure_state (s.failures aid)).count
    → t < (failure_state (s.failures aid)).until
    → is_cooling aid t s ≡ true
unfolding account_is_cooling_down
cooling_lem aid t s h k = ground arith

failures-mark_account_failure :
    (aid status_code : ℕ) (hint : Option ℕ) (now : ℕ) (s : State)
    → (mark_account_failure aid status_code hint now s).failures aid
      ≡ some (next_failure (failure_state (s.failures aid)) now status_code hint)
unfolding mark_account_failure
failures-mark_account_failure aid status_code hint now s = ground arith

-- A failure keeps its account out for as long as the back-off of its streak, at least five seconds,
-- whatever the status code and the hint, and also as long as it was kept out before.
pub cooling-mark_account_failure :
    (aid status_code : ℕ) (hint : Option ℕ) (now t : ℕ) (s : State)
    → let f = failure_state (s.failures aid) in
      t < max f.until (now + backoff status_code (streak f now + 1))
      → is_cooling aid t (mark_account_failure aid status_code hint now s) ≡ true
cooling-mark_account_failure aid status_code hint now t s h =
    let f = failure_state (s.failures aid) in
    let b = next_failure_bounds f now status_code hint in
    let u = next_failure-until f now status_code hint in
    let own = failures-mark_account_failure aid status_code hint now s in
    cooling_lem aid t (mark_account_failure aid status_code hint now s) (rw own b.4)
      (rw own (omega arith))

-- A success ends the wait.
pub cooling-mark_account_success :
    (aid t : ℕ) (s : State) → is_cooling aid t (mark_account_success aid s) ≡ false
unfolding mark_account_success account_is_cooling_down
cooling-mark_account_success aid t s = ground arith

forgotten :
    (f : Failure) (now t status_code : ℕ) (hint : Option ℕ)
    → 0 < f.count
    → f.until ≤ now
    → f.last + failure_decay < now
    → now ≤ t
    → next_failure (failure_state none) t status_code hint ≡ next_failure f t status_code hint
unfolding next_failure
forgotten f now t status_code hint c u l le =
    let quiet : streak f t ≡ 0 = ground arith in
    let passed : (w : ℕ) → max 0 (t + w) ≡ max f.until (t + w) = λ w. omega arith in
    rw (quiet, passed) refl

-- Asking whether an account is cooling down may drop its record. No later failure and no later
-- question of any account can tell.
pub next_failure-account_is_cooling_down :
    (aid now j t status_code : ℕ) (hint : Option ℕ) (s : State)
    → now ≤ t
    → next_failure
        (failure_state ((account_is_cooling_down aid now s).1.failures j))
        t
        status_code
        hint
      ≡ next_failure (failure_state (s.failures j)) t status_code hint
unfolding account_is_cooling_down
next_failure-account_is_cooling_down aid now j t status_code hint s le =
    ground (arith, forgotten (failure_state (s.failures aid)) now t status_code hint)

pub cooling-account_is_cooling_down :
    (aid now j t : ℕ) (s : State)
    → now ≤ t
    → is_cooling j t (account_is_cooling_down aid now s).1 ≡ is_cooling j t s
unfolding account_is_cooling_down
cooling-account_is_cooling_down aid now j t s le = ground arith

-- Failures at the given times, all with the status code `status_code` and no hint.
unfoldable pub fail_at : ℕ → List ℕ → Failure → Failure
fail_at status_code [] f = f
fail_at status_code (t ∷ ts) f = fail_at status_code ts (next_failure f t status_code none)

-- Each failure follows the one before within the decay time.
abbrev pub IsSteady : ℕ → List ℕ → Type 0
IsSteady last [] = Unit
IsSteady last (t ∷ ts) = (t ≤ last + failure_decay) × IsSteady t ts

-- A steady run of failures adds its length to the streak, so the next delay is that of the sum.
pub count-fail_at :
    (status_code : ℕ) (ts : List ℕ) (f : Failure)
    → IsSteady f.last ts
    → (fail_at status_code ts f).count ≡ f.count + length ts
unfolding fail_at next_failure
count-fail_at status_code [] f h = omega arith
count-fail_at status_code (t ∷ ts) f h =
    let ih = count-fail_at status_code ts (next_failure f t status_code none) h.1 in
    let steady : streak f t ≡ f.count = ground arith in omega arith
