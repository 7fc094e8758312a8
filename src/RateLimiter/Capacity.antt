-- ===== src/RateLimiter/Capacity.antt =====
-- How many coroutines an account serves and how many wait for it, whatever the order of events.
use buddy2api.Prelude.{
  ℕ, zero, suc, ◌-◌, ◌≤◌, ◌<◌, ◌≡◌, refl, ap, Bool, true, Option, none, some, List, [], ◌∷◌, length,
  length-append, arith, leb, ◌==◌, if◌then◌else◌, All, inl, inr, Bool-cases, Option-cases, ◌&&◌,
}
use buddy2api.RateLimiter.Settings.{Limits}
use buddy2api.RateLimiter.{
  Slot, Task, System, empty, find_task, remove, start_slot, prune, default_slot, setdefault, join,
  enter, leave_queue, release, may_start, admit, poll, Event, arrive, wake, cancel, finish, resume,
  resume_found, step, run, max_waiters,
}
use buddy2api.RateLimiter.Tasks.{waiting_at, running_at, Owns}
use buddy2api.RateLimiter.Consistent.{empty-IsConsistent}
use buddy2api.RateLimiter.Reachable.{run-IsConsistent}

-- Every reading of the settings limits the concurrency, to at most `c`.
abbrev pub IsCapped : ℕ → ℕ × Event → Type 0
IsCapped c (_, wake _ cfg _) = (0 < cfg.max_concurrent) × (cfg.max_concurrent ≤ c)
IsCapped c (_, _) = Unit

abbrev FitsSlot : ℕ → Slot → Type 0
FitsSlot c slot = (slot.active ≤ c) × (length slot.waiting ≤ max_waiters)

-- Every slot has at most `c` holders and a queue of at most 256.
pub record Fits (c : ℕ) (s : System) : Type 0 where
  pub slot : (a : ℕ) → FitsSlot c (s.heap a)

length-remove : (token : ℕ) (ws : List ℕ) → length (remove token ws) ≤ length ws
length-remove token [] = omega arith
length-remove token (w ∷ ws) = ground (arith, length-remove token ws)

module _ (c : ℕ) where
  default_slot-Fits :
      (aid : ℕ) (s : System) (o : Option ℕ) → Fits c s → Fits c (default_slot aid s o).1
  default_slot-Fits aid s (some a) h = h
  default_slot-Fits aid s none h = record { slot = λ a. ground (arith, h.slot a) }

  join-Fits : (aid token now a : ℕ) (s : System) → Fits c s → Fits c (join aid token now (a, s))
  unfolding join
  join-Fits aid token now a s h = elim (Bool-cases (leb max_waiters (length (s.heap a).waiting))) [
    | inl full ↦ rw full h
    | inr room ↦ rw room (record {
      slot = λ b. ground (arith, h.slot a, h.slot b, length-append (s.heap a).waiting (token ∷ []));
    })
  ]

  enter-Fits : (aid token now : ℕ) (s : System) → Fits c s → Fits c (enter aid token now s)
  unfolding enter prune
  enter-Fits zero token now s h = h
  enter-Fits (suc k) token now s h =
      let p = prune now s in
      let kept : Fits c p = record { slot = h.slot } in
      let found = setdefault (suc k) p in
      join-Fits (suc k) token now found.0 found.1
        (default_slot-Fits (suc k) p (p.table (suc k)) kept)

  leave_queue-Fits : (t : Task) (s : System) → Fits c s → Fits c (leave_queue t s)
  unfolding leave_queue
  leave_queue-Fits t s h = record {
    slot =
        λ a. ground (arith, h.slot a, h.slot t.addr, length-remove t.token (s.heap t.addr).waiting);
  }

  release-Fits : (t : Task) (s : System) → Fits c s → Fits c (release t s)
  unfolding release
  release-Fits t s h = record { slot = λ a. ground (arith, h.slot a, h.slot t.addr) }

  start_slot-Fits :
      (cfg : Limits) (now token : ℕ) (slot : Slot)
      → 0 < cfg.max_concurrent
      → cfg.max_concurrent ≤ c
      → may_start cfg now token slot ≡ true
      → FitsSlot c slot
      → FitsSlot c (start_slot now slot)
  start_slot-Fits cfg now token slot p q may h = ground arith

  admit-Fits :
      (cfg : Limits) (now : ℕ) (t : Task) (s : System)
      → 0 < cfg.max_concurrent
      → cfg.max_concurrent ≤ c
      → may_start cfg now t.token (s.heap t.addr) ≡ true
      → Fits c s
      → Fits c (admit now t s)
  unfolding admit
  admit-Fits cfg now t s p q may h = record {
    slot = λ a. elim (Bool-cases (a == t.addr)) [
      | inl here ↦ rw here (start_slot-Fits cfg now t.token (s.heap t.addr) p q may (h.slot t.addr))
      | inr other ↦ rw other (h.slot a)
    ];
  }

  poll-Fits :
      (cfg : Limits) (now : ℕ) (cooling : Bool) (t : Task) (s : System)
      → 0 < cfg.max_concurrent
      → cfg.max_concurrent ≤ c
      → Fits c s
      → Fits c (poll cfg now cooling t s)
  unfolding poll
  poll-Fits cfg now cooling t s p q h =
      elim (Bool-cases (leb cfg.queue_timeout (now - t.started))) [
        | inl late ↦ rw late (leave_queue-Fits t s h)
        | inr early ↦ elim (Bool-cases (may_start cfg now t.token (s.heap t.addr))) [
          | inl may ↦
              let started = admit-Fits cfg now t s p q may h in
              rw (early, may)
                (elim (Bool-cases (t.waited && cooling)) [
                  | inl refused ↦ rw refused (release-Fits t (admit now t s) started)
                  | inr fine ↦ rw fine started
                ])
          | inr wait ↦ rw (early, wait) (record { slot = h.slot })
        ]
      ]

  resume-Fits :
      (now : ℕ) (e : Event) (t : Task) (s : System)
      → IsCapped c (now, e)
      → Fits c s
      → Fits c (resume now e t s)
  resume-Fits now (arrive a k) t s p h = h
  resume-Fits now (wake k cfg cooling) t s p h = elim (Bool-cases t.admitted) [
    | inl in_use ↦ simp in_use h
    | inr in_queue ↦ simp in_queue (poll-Fits cfg now cooling t s p.0 p.1 h)
  ]
  resume-Fits now (cancel k) t s p h = elim (Bool-cases t.admitted) [
    | inl in_use ↦ simp in_use (release-Fits t s h)
    | inr in_queue ↦ simp in_queue (leave_queue-Fits t s h)
  ]
  resume-Fits now (finish k) t s p h = elim (Bool-cases t.admitted) [
    | inl in_use ↦ simp in_use (release-Fits t s h)
    | inr in_queue ↦ simp in_queue h
  ]

  resume_found-Fits :
      (now : ℕ) (e : Event) (o : Option Task) (s : System)
      → IsCapped c (now, e)
      → Fits c s
      → Fits c (resume_found now e o s)
  resume_found-Fits now e none s p h = h
  resume_found-Fits now e (some t) s p h = resume-Fits now e t s p h

  step-Fits :
      (now : ℕ) (e : Event) (s : System) → IsCapped c (now, e) → Fits c s → Fits c (step now e s)
  unfolding step
  step-Fits now (arrive aid token) s p h = elim (Option-cases (find_task token s.tasks)) [
    | inl new ↦ rw (new, step) (enter-Fits aid token now s h)
    | inr (t, used) ↦ rw (used, step) h
  ]
  step-Fits now (wake token cfg b) s p h =
      resume_found-Fits now (wake token cfg b) (find_task token s.tasks) s p h
  step-Fits now (cancel token) s p h =
      resume_found-Fits now (cancel token) (find_task token s.tasks) s p h
  step-Fits now (finish token) s p h =
      resume_found-Fits now (finish token) (find_task token s.tasks) s p h

  pub run-Fits :
      (es : List (ℕ × Event)) (s : System) → All (IsCapped c) es → Fits c s → Fits c (run es s)
  unfolding run
  run-Fits [] s p h = h
  run-Fits ((now, e) ∷ es) s p h = run-Fits es (step now e s) p.1 (step-Fits now e s p.0 h)

-- The admitted and the waiting coroutines of an account.
abbrev pub running_for : ℕ → List Task → ℕ
running_for k [] = 0
running_for k (t ∷ ts) =
    if t.aid == k && t.admitted then suc (running_for k ts) else running_for k ts

abbrev pub waiting_for : ℕ → List Task → ℕ
waiting_for k [] = 0
waiting_for k (t ∷ ts) =
    if t.aid == k
    then (if t.admitted then waiting_for k ts else suc (waiting_for k ts))
    else waiting_for k ts

-- All of them are at the slot that the dict has for the account.
one_slot :
    (k : ℕ) (table : ℕ → Option ℕ) (ts : List Task) (a : ℕ)
    → table k ≡ some a
    → Owns (λ j b. table j ≡ some b) ts
    → (running_for k ts ≤ running_at a ts) × (waiting_for k ts ≤ length (waiting_at a ts))
one_slot k table [] a e h = omega arith
one_slot k table (t ∷ ts) a e h = let ih = one_slot k table ts a e h.1 in ground arith

no_slot :
    (k : ℕ) (table : ℕ → Option ℕ) (ts : List Task)
    → table k ≡ none
    → Owns (λ j b. table j ≡ some b) ts
    → (running_for k ts ≡ 0) × (waiting_for k ts ≡ 0)
no_slot k table [] e h = (refl, refl)
no_slot k table (t ∷ ts) e h = let ih = no_slot k table ts e h.1 in ground arith

-- Whatever happens, in whatever order, since the gateway started: if the saved settings always limit
-- the concurrency to at most `c`, no account serves more than `c` coroutines at once, and
-- no more than 256 wait for it.
pub run-capacity :
    (c k : ℕ) (es : List (ℕ × Event))
    → All (IsCapped c) es
    → let tasks = (run es empty).tasks in
      (running_for k tasks ≤ c) × (waiting_for k tasks ≤ max_waiters)
run-capacity c k es p =
    let s = run es empty in
    let v = run-IsConsistent es empty empty-IsConsistent in
    let h = run-Fits c es empty p (record { slot = λ a. omega arith }) in
    elim (Option-cases (s.table k)) [
      | inl unknown ↦
          let z = no_slot k s.table s.tasks unknown v.shared in (omega arith, omega arith)
      | inr (a, e) ↦
          let one = one_slot k s.table s.tasks a e v.shared in
          let f = h.slot a in
          let w = ap (λ (l : List ℕ). length l) (v.waiting a) in
          let r = v.active a in (omega arith, omega arith)
    ]
