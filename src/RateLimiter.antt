-- ===== src/RateLimiter.antt =====
-- rate_limiter.py: the chat slots of the accounts.
-- Times are whole milliseconds of the monotonic clock. The coroutines run on one event loop, so what
-- stands between two awaits is one step: a system is the module's state with its coroutines, and an
-- event resumes one of them. `_states` maps an account to the address of its `_State` on the heap,
-- because a coroutine keeps its reference across awaits, while entries of the dict are dropped.
pub mod Settings
pub mod Tasks
pub mod Consistent
pub mod Reachable
pub mod Capacity
pub mod Pacing
pub mod Schedule
mod Tests
use buddy2api.Prelude.{
  ℕ, zero, ◌+◌, ◌-◌, ◌*◌, ◌/◌, min, max, Bool, true, false, not, ◌&&◌, ◌||◌, Option, none, some,
  List, [], ◌∷◌, ◌++◌, length, ltb, leb, ◌==◌, if◌then◌else◌, update,
}
use buddy2api.RateLimiter.Settings.{Limits}

-- `_MAX_WAITERS`
abbrev pub max_waiters : ℕ
max_waiters = 256

-- `_State`; a `last_start` of minus infinity is `none`.
pub record Slot : Type 0 where
  pub active : ℕ
  pub last_start : Option ℕ
  pub waiting : List ℕ

abbrev pub fresh_slot : Slot
fresh_slot = record { active = 0; last_start = none; waiting = [] }

-- A coroutine inside `account_slot`: its token, its account, its reference to the slot, its `started`
-- and `waited`, and whether it was admitted.
pub record Task : Type 0 where
  pub token : ℕ
  pub aid : ℕ
  pub addr : ℕ
  pub started : ℕ
  pub waited : Bool
  pub admitted : Bool

-- `starts` is the history of admissions, newest first: account and time. The code does not keep it.
pub record System : Type 0 where
  pub heap : ℕ → Slot
  pub table : ℕ → Option ℕ
  pub next : ℕ
  pub tasks : List Task
  pub starts : List (ℕ × ℕ)

abbrev pub empty : System
empty = record { heap = λ _. fresh_slot; table = λ _. none; next = 0; tasks = []; starts = [] }

abbrev pub find_task : ℕ → List Task → Option Task
find_task token [] = none
find_task token (t ∷ ts) = if t.token == token then some t else find_task token ts

abbrev pub drop_task : ℕ → List Task → List Task
drop_task token [] = []
drop_task token (t ∷ ts) = if t.token == token then ts else t ∷ drop_task token ts

abbrev pub replace_task : Task → List Task → List Task
replace_task u [] = []
replace_task u (t ∷ ts) = if t.token == u.token then u ∷ ts else t ∷ replace_task u ts

-- `state.waiting.remove(token)`
abbrev pub remove : ℕ → List ℕ → List ℕ
remove token [] = []
remove token (w ∷ ws) = if w == token then ws else w ∷ remove token ws

-- The test of the clean-up: idle, and its last start more than the largest pacing gap ago.
abbrev pub is_stale : ℕ → Slot → Bool
is_stale started slot =
    slot.active == 0
    && (elim slot.waiting [ [] ↦ true | _ ∷ _ ↦ false ]
        && elim slot.last_start [ none ↦ true | some l ↦ ltb (l + 600 * 1000) started ])

abbrev pub forget_if : Bool → Option ℕ → Option ℕ
forget_if stale entry = if stale then none else entry

-- `for key, old in list(_states.items())`
abbrev pub prune_entry : ℕ → (ℕ → Slot) → Option ℕ → Option ℕ
prune_entry started heap none = none
prune_entry started heap (some a) = forget_if (is_stale started (heap a)) (some a)

unfoldable pub prune : ℕ → System → System
prune started s = record s { table = λ k. prune_entry started s.heap (s.table k) }

-- `_states.setdefault(aid, _State())`, by what the dict has for the account.
abbrev pub default_slot : ℕ → System → Option ℕ → ℕ × System
default_slot aid s (some a) = (a, s)
default_slot aid s none = (
  s.next,
  record s {
    table = update s.table aid (some s.next);
    heap = update s.heap s.next fresh_slot;
    next = s.next + 1;
  },
)

abbrev pub setdefault : ℕ → System → ℕ × System
setdefault aid s = default_slot aid s (s.table aid)

abbrev pub new_task : ℕ → ℕ → ℕ → ℕ → Task
new_task token aid addr now = record {
  token = token;
  aid = aid;
  addr = addr;
  started = now;
  waited = false;
  admitted = false;
}

-- A full queue raises before the coroutine joins it.
unfoldable pub join : ℕ → ℕ → ℕ → ℕ × System → System
join aid token now (a, s) =
    let slot = s.heap a in
    if leb max_waiters (length slot.waiting) then s else record s {
      heap = update s.heap a (record slot { waiting = slot.waiting ++ token ∷ [] });
      tasks = s.tasks ++ new_task token aid a now ∷ [];
    }

-- `account_slot` down to its loop. Account 0 takes no slot.
unfoldable pub enter : ℕ → ℕ → ℕ → System → System
enter zero token now s = s
enter aid token now s = join aid token now (setdefault aid (prune now s))

-- The `finally` of a coroutine that was not admitted.
unfoldable pub leave_queue : Task → System → System
leave_queue t s =
    let slot = s.heap t.addr in
    record s {
      heap = update s.heap t.addr (record slot { waiting = remove t.token slot.waiting });
      tasks = drop_task t.token s.tasks;
    }

-- The `finally` of a coroutine that was admitted.
unfoldable pub release : Task → System → System
release t s =
    let slot = s.heap t.addr in
    record s {
      heap = update s.heap t.addr (record slot { active = slot.active - 1 });
      tasks = drop_task t.token s.tasks;
    }

-- `last_start + interval - now <= 0`
abbrev pub gap_over : Option ℕ → ℕ → ℕ → Bool
gap_over none interval now = true
gap_over (some l) interval now = leb (l + interval) now

abbrev pub may_start : Limits → ℕ → ℕ → Slot → Bool
may_start cfg now token slot =
    elim slot.waiting [ [] ↦ false | w ∷ _ ↦ w == token ]
    && (gap_over slot.last_start cfg.interval now
        && (cfg.max_concurrent == 0 || ltb slot.active cfg.max_concurrent))

abbrev pub popleft : List ℕ → List ℕ
popleft [] = []
popleft (w ∷ ws) = ws

abbrev pub start_slot : ℕ → Slot → Slot
start_slot now slot = record {
  active = slot.active + 1;
  last_start = some now;
  waiting = popleft slot.waiting;
}

unfoldable pub admit : ℕ → Task → System → System
admit now t s = record s {
  heap = update s.heap t.addr (start_slot now (s.heap t.addr));
  tasks = replace_task (record t { admitted = true }) s.tasks;
  starts = (t.aid, now) ∷ s.starts;
}

-- After the loop: an account that began to cool down while the coroutine waited is refused.
abbrev pub settle : Bool → Task → System → System
settle cooling t s = if t.waited && cooling then release t s else s

-- One round of the loop; `cfg` is the reading of the settings after the last sleep.
unfoldable pub poll : Limits → ℕ → Bool → Task → System → System
poll cfg now cooling t s =
    if leb cfg.queue_timeout (now - t.started)
    then leave_queue t s
    else if may_start cfg now t.token (s.heap t.addr)
    then settle cooling t (admit now t s)
    else record s { tasks = replace_task (record t { waited = true }) s.tasks }

-- What resumes a coroutine. A poll carries the settings and the answer of `account_is_cooling_down`.
pub data Event : Type 0 where
  arrive : ℕ → ℕ → Event
  wake : ℕ → Limits → Bool → Event
  cancel : ℕ → Event
  finish : ℕ → Event

-- A coroutine in the loop wakes or is cancelled, one that was admitted ends its response.
abbrev pub resume : ℕ → Event → Task → System → System
resume now (arrive _ _) t s = s
resume now (wake _ cfg cooling) t s = if t.admitted then s else poll cfg now cooling t s
resume now (cancel _) t s = if t.admitted then release t s else leave_queue t s
resume now (finish _) t s = if t.admitted then release t s else s

abbrev pub resume_found : ℕ → Event → Option Task → System → System
resume_found now e none s = s
resume_found now e (some t) s = resume now e t s

-- Tokens are new objects: an arrival under a token in use does not happen.
unfoldable pub step : ℕ → Event → System → System
step now (arrive aid token) s = elim (find_task token s.tasks) [
  | none ↦ enter aid token now s
  | some _ ↦ s
]
step now (wake token cfg c) s = resume_found now (wake token cfg c) (find_task token s.tasks) s
step now (cancel token) s = resume_found now (cancel token) (find_task token s.tasks) s
step now (finish token) s = resume_found now (finish token) (find_task token s.tasks) s

unfoldable pub run : List (ℕ × Event) → System → System
run [] s = s
run ((now, e) ∷ es) s = run es (step now e s)
