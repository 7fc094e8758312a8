-- ===== src/Cooldown/Bounds.antt =====
-- The records over a run of the gateway: no account is kept out for longer than an hour after its
-- last failure, and forgetting a quiet account changes nothing.
use buddy2api.Prelude.{
  ℕ, ◌+◌, ◌≤◌, ◌<◌, ◌≡◌, refl, true, false, Option, none, some, arith, inl, inr, Bool-cases,
}
use buddy2api.Cooldown.{
  State, Failure, failure_state, mark_account_success, next_failure, mark_account_failure,
  account_is_cooling_down, quota_hint_max,
}
use buddy2api.Cooldown.Backoff.{next_failure_bounds}

-- A record that the operations can have written by `now`.
pub record IsPlausible (now : ℕ) (f : Failure) : Type 0 where
  pub past : f.last ≤ now
  pub counted : 0 < f.count
  pub hour : f.until ≤ f.last + quota_hint_max

pub record IsSound (now : ℕ) (s : State) : Type 0 where
  pub at : (aid : ℕ) (f : Failure) → s.failures aid ≡ some f → IsPlausible now f

abbrev pub later : {s : State} (now t : ℕ) → now ≤ t → IsSound now s → IsSound t s
later now t h v = record {
  at = λ aid f e.
      let p = v.at aid f e in record { past = omega arith; counted = p.counted; hour = p.hour };
}

pub mark_account_success-IsSound :
    (aid now : ℕ) (s : State) → IsSound now s → IsSound now (mark_account_success aid s)
unfolding mark_account_success
mark_account_success-IsSound aid now s v = record { at = λ j f e. ground (arith, v.at j f) }

failure-IsPlausible :
    (o : Option Failure) (now status_code : ℕ) (hint : Option ℕ)
    → ((f : Failure) → o ≡ some f → IsPlausible now f)
    → IsPlausible now (next_failure (failure_state o) now status_code hint)
failure-IsPlausible none now status_code hint v =
    let b = next_failure_bounds (failure_state none) now status_code hint in omega arith
failure-IsPlausible (some f) now status_code hint v =
    let b = next_failure_bounds f now status_code hint in let p = v f refl in omega arith

pub mark_account_failure-IsSound :
    (aid status_code : ℕ) (hint : Option ℕ) (now : ℕ) (s : State)
    → IsSound now s
    → IsSound now (mark_account_failure aid status_code hint now s)
unfolding mark_account_failure
mark_account_failure-IsSound aid status_code hint now s v = record {
  at = λ j f e.
      let fresh = failure-IsPlausible (s.failures aid) now status_code hint (v.at aid) in
      ground (arith, v.at j f, fresh);
}

pub account_is_cooling_down-IsSound :
    (aid now : ℕ) (s : State) → IsSound now s → IsSound now (account_is_cooling_down aid now s).1
unfolding account_is_cooling_down
account_is_cooling_down-IsSound aid now s v = record { at = λ j f e. ground (arith, v.at j f) }

-- What can happen to the records, each step at its time on the clock.
pub data Step (now : ℕ) (s : State) : State → Type 0 where
  success : (aid : ℕ) → Step now s (mark_account_success aid s)
  failure :
      (aid status_code : ℕ) (hint : Option ℕ)
      → Step now s (mark_account_failure aid status_code hint now s)
  query : (aid : ℕ) → Step now s (account_is_cooling_down aid now s).1

-- The states that a run from an empty table reaches, with the time of the last step.
pub data Reach (start : State) : ℕ → State → Type 0 where
  begin : Reach start 0 start
  next : {now t : ℕ} {s u : State} → Reach start now s → now ≤ t → Step t s u → Reach start t u

Step-IsSound : {now : ℕ} {s u : State} → Step now s u → IsSound now s → IsSound now u
Step-IsSound {now} {s} (success aid) v = mark_account_success-IsSound aid now s v
Step-IsSound {now} {s} (failure aid code hint) v =
    mark_account_failure-IsSound aid code hint now s v
Step-IsSound {now} {s} (query aid) v = account_is_cooling_down-IsSound aid now s v

pub Reach-IsSound :
    {start s : State} {now : ℕ} → IsSound 0 start → Reach start now s → IsSound now s
Reach-IsSound v begin = v
Reach-IsSound v (next {now} {t} r le st) = Step-IsSound st (later now t le (Reach-IsSound v r))

cooling_means :
    (aid now : ℕ) (s : State)
    → (account_is_cooling_down aid now s).0 ≡ true
    → now < (failure_state (s.failures aid)).until
unfolding account_is_cooling_down
cooling_means aid now s h = ground arith

-- In every reachable state an account whose last failure is an hour old, or that has no failure on
-- record, is not cooling down.
pub Reach-hour :
    {start s : State} {now : ℕ} (aid t : ℕ)
    → IsSound 0 start
    → Reach start now s
    → (failure_state (s.failures aid)).last + quota_hint_max ≤ t
    → (account_is_cooling_down aid t s).0 ≡ false
Reach-hour {s = s} aid t v r old = elim (Bool-cases (account_is_cooling_down aid t s).0) [
  | inl cooling ↦
      absurd
        (late (s.failures aid) ((Reach-IsSound v r).at aid) (cooling_means aid t s cooling) old)
  | inr free ↦ free
]
  where
    late :
        {now : ℕ} (o : Option Failure)
        → ((f : Failure) → o ≡ some f → IsPlausible now f)
        → t < (failure_state o).until
        → (failure_state o).last + quota_hint_max ≤ t
        → ⊥
    late none p h k = omega arith
    late (some f) p h k = let q = p f refl in omega arith
