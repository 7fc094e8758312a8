-- ===== src/Cooldown/Backoff.antt =====
-- When an account is kept out, and for how long.
use buddy2api.Prelude.{
  ℕ, zero, suc, ◌+◌, ◌-◌, ◌*◌, ◌^◌, ◌≤◌, ◌<◌, min, max, ◌≡◌, refl, Option, none, some, arith,
}
use native.Mathlib.Nat.{pow-suc}
use buddy2api.Cooldown.{
  Failure, next_failure, backoff, base_delay, streak, with_hint, seconds, quota_hint_max,
}

pow-pos : (k : ℕ) → 1 ≤ 2 ^ k
pow-pos zero = omega arith
pow-pos (suc k) = rw pow-suc (omega (arith, pow-pos k))

base_delay_bounds :
    (status_code : ℕ) → (seconds 5 ≤ base_delay status_code) × (base_delay status_code ≤ seconds 30)
base_delay_bounds status_code = ground arith

le-mul : (a b : ℕ) → 1 ≤ b → a ≤ a * b
le-mul a b h = grind arith

-- Every back-off lasts from five seconds to five minutes.
pub backoff_bounds :
    (status_code count : ℕ)
    → (seconds 5 ≤ backoff status_code count) × (backoff status_code count ≤ seconds 300)
backoff_bounds status_code count =
    let grown =
      le-mul (base_delay status_code) (2 ^ min (count - 1) 6) (pow-pos (min (count - 1) 6)) in
    let base = base_delay_bounds status_code in (omega arith, omega arith)

pow_mono : (j k : ℕ) → j ≤ k → 2 ^ j ≤ 2 ^ k
pow_mono zero k h = pow-pos k
pow_mono (suc j) zero h = elim h [ ]
pow_mono (suc j) (suc k) h = rw (pow-suc, pow-suc) (omega (arith, pow_mono j k (omega arith)))

mul_mono : (c a b : ℕ) → a ≤ b → c * a ≤ c * b
mul_mono c a b h = grind arith

-- A longer streak never waits less.
pub backoff_mono : (status_code j k : ℕ) → j ≤ k → backoff status_code j ≤ backoff status_code k
backoff_mono status_code j k h =
    let p = pow_mono (min (j - 1) 6) (min (k - 1) 6) (omega arith) in
    let q = mul_mono (base_delay status_code) (2 ^ min (j - 1) 6) (2 ^ min (k - 1) 6) p in
    omega arith

with_hint_bounds :
    (hint : Option ℕ) (cooldown : ℕ)
    → cooldown ≤ quota_hint_max
    → (cooldown ≤ with_hint hint cooldown) × (with_hint hint cooldown ≤ quota_hint_max)
with_hint_bounds none cooldown h = omega arith
with_hint_bounds (some hint) cooldown h = ground arith

-- What a failure records: the time, a deadline at least five seconds ahead that is no earlier than
-- the one before, and at most one hour ahead unless the one before was later.
pub next_failure_bounds :
    (f : Failure) (now status_code : ℕ) (hint : Option ℕ)
    → let g = next_failure f now status_code hint in
      (now + seconds 5 ≤ g.until)
      × (f.until ≤ g.until)
      × (g.until ≤ max f.until (now + quota_hint_max))
      × (g.last ≡ now)
      × (0 < g.count)
unfolding next_failure
next_failure_bounds f now status_code hint =
    let count = streak f now + 1 in
    let b = backoff_bounds status_code count in
    let w = with_hint_bounds hint (backoff status_code count) (omega arith) in
    (omega arith, omega arith, omega arith, refl, omega arith)

-- A hint of the upstream only lengthens the wait.
pub next_failure-until :
    (f : Failure) (now status_code : ℕ) (hint : Option ℕ)
    → max f.until (now + backoff status_code (streak f now + 1))
      ≤ (next_failure f now status_code hint).until
unfolding next_failure
next_failure-until f now status_code hint =
    let count = streak f now + 1 in
    let b = backoff_bounds status_code count in
    let w = with_hint_bounds hint (backoff status_code count) (omega arith) in omega arith
