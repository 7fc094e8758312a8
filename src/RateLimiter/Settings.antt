-- ===== src/RateLimiter/Settings.antt =====
-- rate_limiter.py, `settings`: the limits as the management page saved them, made safe.
-- A saved value is a float; here it counts thousandths, so seconds are milliseconds.
use buddy2api.Prelude.{ℕ, ◌*◌, ◌/◌, ◌≤◌, min, max, arith}

-- What `float(db.get_setting(key, default))` gives, or that it raises.
pub data Reading : Type 0 where
  unreadable infinite negative : Reading
  number : ℕ → Reading

pub record Limits : Type 0 where
  pub interval : ℕ
  pub max_concurrent : ℕ
  pub queue_timeout : ℕ

-- The fallback to the default of `DEFAULT_SETTINGS`.
pub finite_or : ℕ → Reading → ℕ
finite_or default (number n) = n
finite_or default _ = default

abbrev pub max_gap : ℕ
max_gap = 600 * 1000

unfoldable pub settings : Reading → Reading → Reading → Limits
unfolding finite_or
settings interval max_concurrent queue_timeout = record {
  interval = min max_gap (finite_or 0 interval);
  max_concurrent = min 100 (finite_or 0 max_concurrent / 1000);
  queue_timeout = max 1000 (min max_gap (finite_or (120 * 1000) queue_timeout));
}

-- What the limiter is given, whatever is stored.
pub record IsSafe (cfg : Limits) : Type 0 where
  pub gap : cfg.interval ≤ max_gap
  pub slots : cfg.max_concurrent ≤ 100
  pub shortest : 1000 ≤ cfg.queue_timeout
  pub longest : cfg.queue_timeout ≤ max_gap

-- Whatever the database holds, the pacing gap is at most ten minutes, at most a hundred slots are
-- asked for, and the wait lasts from one second to ten minutes.
pub settings-IsSafe :
    (interval max_concurrent queue_timeout : Reading)
    → IsSafe (settings interval max_concurrent queue_timeout)
unfolding settings
settings-IsSafe interval max_concurrent queue_timeout = omega arith
