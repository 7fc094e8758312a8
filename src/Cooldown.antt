-- ===== src/Cooldown.antt =====
-- auth_manager.py: the failure records of the accounts and the back-off that they impose.
-- Times and durations are whole milliseconds of the monotonic clock, which starts at 0 or later.
pub mod Backoff
pub mod Bounds
pub mod Records
mod Tests
use buddy2api.Prelude.{
  ℕ, ◌+◌, ◌-◌, ◌*◌, ◌^◌, min, max, Bool, true, false, ◌&&◌, ◌||◌, Option, none, some, ltb, ◌==◌,
  if◌then◌else◌, update,
}

abbrev pub seconds : ℕ → ℕ
seconds n = n * 1000

-- `_FAILURE_DECAY_SECONDS` and `_QUOTA_HINT_MAX_SECONDS`
abbrev pub failure_decay : ℕ
failure_decay = seconds 1800

abbrev pub quota_hint_max : ℕ
quota_hint_max = seconds 3600

-- An entry of `_account_failures`.
pub record Failure : Type 0 where
  pub count : ℕ
  pub until : ℕ
  pub last : ℕ

-- The account's `status` column, as far as this component writes it.
pub data Status : Type 0 where
  active expired disabled : Status

pub record State : Type 0 where
  pub failures : ℕ → Option Failure
  pub status : ℕ → Status

-- `_failure_state`; every writer stores all three fields.
abbrev pub failure_state : Option Failure → Failure
failure_state none = record { count = 0; until = 0; last = 0 }
failure_state (some f) = f

unfoldable pub mark_account_success : ℕ → State → State
mark_account_success aid s = record s { failures = update s.failures aid none }

-- The streak so far: a quiet spell forgets it.
abbrev pub streak : Failure → ℕ → ℕ
streak f now = if ltb 0 f.count && ltb (f.last + failure_decay) now then 0 else f.count

abbrev pub base_delay : ℕ → ℕ
base_delay status_code =
    if status_code == 401 || (status_code == 403 || status_code == 429)
    then seconds 30
    else seconds 5

-- The delay of the failure that makes the streak `count`.
abbrev pub backoff : ℕ → ℕ → ℕ
backoff status_code count = min (seconds 300) (base_delay status_code * 2 ^ min (count - 1) 6)

abbrev pub with_hint : Option ℕ → ℕ → ℕ
with_hint none cooldown = cooldown
with_hint (some hint) cooldown =
    if ltb 0 hint then max cooldown (min hint quota_hint_max) else cooldown

unfoldable pub next_failure : Failure → ℕ → ℕ → Option ℕ → Failure
next_failure f now status_code hint =
    let count = streak f now + 1 in
    record {
      count = count;
      until = max f.until (now + with_hint hint (backoff status_code count));
      last = now;
    }

unfoldable pub mark_account_failure : ℕ → ℕ → Option ℕ → ℕ → State → State
mark_account_failure aid status_code hint now s = record {
  failures =
      update s.failures aid
        (some (next_failure (failure_state (s.failures aid)) now status_code hint));
  status =
      if status_code == 401 || status_code == 403 then update s.status aid expired else s.status;
}

unfoldable pub account_is_cooling_down : ℕ → ℕ → State → Bool × State
account_is_cooling_down aid now s =
    let f = failure_state (s.failures aid) in
    if f.count == 0
    then (false, s)
    else if ltb now f.until
    then (true, s)
    else if ltb (f.last + failure_decay) now
    then (false, record s { failures = update s.failures aid none })
    else (false, s)
