-- ===== src/RateLimiter/Schedule.antt =====
-- The pacing of the starts through every event of a run.
use buddy2api.Prelude.{
  ℕ, zero, suc, ◌-◌, ◌≤◌, ◌≡◌, refl, ◌∙◌, inl, inr, Bool, Option, none, some, List, [], ◌∷◌, arith,
  leb, All, Bool-cases, Option-cases, ◌&&◌,
}
use buddy2api.RateLimiter.Settings.{Limits, max_gap}
use buddy2api.RateLimiter.{
  Task, System, empty, find_task, prune, default_slot, setdefault, join, enter, leave_queue,
  release, may_start, admit, settle, poll, Event, arrive, wake, cancel, finish, resume,
  resume_found, step, run,
}
use buddy2api.RateLimiter.Tasks.{Owns-find_task}
use buddy2api.RateLimiter.Consistent.{IsConsistent, empty-IsConsistent}
use buddy2api.RateLimiter.Reachable.{step-IsConsistent}
use buddy2api.RateLimiter.Pacing.{
  Paced, Remembers, later, enter-Remembers, leave_queue-Remembers, release-Remembers,
  admit-Remembers, admit-Paced,
}

-- Every reading of the settings asks for a gap of at least `gap`.
abbrev pub IsPacedBy : ℕ → ℕ × Event → Type 0
IsPacedBy gap (_, wake _ cfg _) = gap ≤ cfg.interval
IsPacedBy gap (_, _) = Unit

-- The clock does not run backwards.
abbrev pub IsTimed : ℕ → List (ℕ × Event) → Type 0
IsTimed now [] = Unit
IsTimed now ((t, e) ∷ es) = (now ≤ t) × IsTimed t es

module _ (gap : ℕ) (small : gap ≤ max_gap) where
  abbrev Scheduled : ℕ → System → Type 0
  Scheduled now s = Paced gap s.starts × Remembers now s

  starts-default_slot :
      (aid : ℕ) (s : System) (o : Option ℕ) → (default_slot aid s o).1.starts ≡ s.starts
  starts-default_slot aid s (some a) = refl
  starts-default_slot aid s none = refl

  starts-join : (aid token now a : ℕ) (s : System) → (join aid token now (a, s)).starts ≡ s.starts
  unfolding join
  starts-join aid token now a s = ground arith

  starts-enter : (aid token now : ℕ) (s : System) → (enter aid token now s).starts ≡ s.starts
  unfolding enter prune
  starts-enter zero token now s = refl
  starts-enter (suc k) token now s =
      let p = prune now s in
      let found = setdefault (suc k) p in
      starts-join (suc k) token now found.0 found.1
      ∙ starts-default_slot (suc k) p (p.table (suc k))

  enter-Scheduled :
      (aid token now : ℕ) (s : System)
      → IsConsistent s
      → Scheduled now s
      → Scheduled now (enter aid token now s)
  enter-Scheduled aid token now s v h =
      (rw (starts-enter aid token now s) h.0, enter-Remembers aid token now s v h.1)

  settle-Scheduled :
      (now : ℕ) (cooling : Bool) (t : Task) (s : System)
      → Scheduled now s
      → Scheduled now (settle cooling t s)
  unfolding release
  settle-Scheduled now cooling t s h = elim (Bool-cases (t.waited && cooling)) [
    | inl refused ↦ rw refused (h.0, release-Remembers now t s h.1)
    | inr fine ↦ rw fine h
  ]

  poll-Scheduled :
      (cfg : Limits) (now : ℕ) (cooling : Bool) (t : Task) (s : System)
      → gap ≤ cfg.interval
      → s.table t.aid ≡ some t.addr
      → IsConsistent s
      → Scheduled now s
      → Scheduled now (poll cfg now cooling t s)
  unfolding poll leave_queue admit
  poll-Scheduled cfg now cooling t s g own v h =
      elim (Bool-cases (leb cfg.queue_timeout (now - t.started))) [
        | inl late ↦ rw late (h.0, leave_queue-Remembers now t s h.1)
        | inr early ↦ elim (Bool-cases (may_start cfg now t.token (s.heap t.addr))) [
          | inl may ↦
              rw (early, may)
                (settle-Scheduled now cooling t (admit now t s) (
                  (admit-Paced gap now cfg t s g small own may h.1, h.0),
                  admit-Remembers now t s own v h.1,
                ))
          | inr wait ↦ rw (early, wait) (h.0, record { past = h.1.past; held = h.1.held })
        ]
      ]

  own_slot :
      (token : ℕ) (t : Task) (s : System)
      → find_task token s.tasks ≡ some t
      → IsConsistent s
      → s.table t.aid ≡ some t.addr
  own_slot token t s h v = Owns-find_task (λ k a. s.table k ≡ some a) token t s.tasks h v.shared

  resume-Scheduled :
      (now : ℕ) (e : Event) (t : Task) (s : System)
      → IsPacedBy gap (now, e)
      → s.table t.aid ≡ some t.addr
      → IsConsistent s
      → Scheduled now s
      → Scheduled now (resume now e t s)
  unfolding leave_queue release
  resume-Scheduled now (arrive a k) t s p own v h = h
  resume-Scheduled now (wake k cfg c) t s p own v h = elim (Bool-cases t.admitted) [
    | inl in_use ↦ simp in_use h
    | inr in_queue ↦ simp in_queue (poll-Scheduled cfg now c t s p own v h)
  ]
  resume-Scheduled now (cancel k) t s p own v h = elim (Bool-cases t.admitted) [
    | inl in_use ↦ simp in_use (h.0, release-Remembers now t s h.1)
    | inr in_queue ↦ simp in_queue (h.0, leave_queue-Remembers now t s h.1)
  ]
  resume-Scheduled now (finish k) t s p own v h = elim (Bool-cases t.admitted) [
    | inl in_use ↦ simp in_use (h.0, release-Remembers now t s h.1)
    | inr in_queue ↦ simp in_queue h
  ]

  resume_found-Scheduled :
      (now token : ℕ) (e : Event) (o : Option Task) (s : System)
      → find_task token s.tasks ≡ o
      → IsPacedBy gap (now, e)
      → IsConsistent s
      → Scheduled now s
      → Scheduled now (resume_found now e o s)
  resume_found-Scheduled now token e none s f p v h = h
  resume_found-Scheduled now token e (some t) s f p v h =
      resume-Scheduled now e t s p (own_slot token t s f v) v h

  step-Scheduled :
      (now : ℕ) (e : Event) (s : System)
      → IsPacedBy gap (now, e)
      → IsConsistent s
      → Scheduled now s
      → Scheduled now (step now e s)
  unfolding step
  step-Scheduled now (arrive aid token) s p v h = elim (Option-cases (find_task token s.tasks)) [
    | inl new ↦ rw (new, step) (enter-Scheduled aid token now s v h)
    | inr (t, used) ↦ rw (used, step) h
  ]
  step-Scheduled now (wake token cfg c) s p v h =
      resume_found-Scheduled now token (wake token cfg c) (find_task token s.tasks) s refl p v h
  step-Scheduled now (cancel token) s p v h =
      resume_found-Scheduled now token (cancel token) (find_task token s.tasks) s refl p v h
  step-Scheduled now (finish token) s p v h =
      resume_found-Scheduled now token (finish token) (find_task token s.tasks) s refl p v h

  run-Scheduled :
      (now : ℕ) (es : List (ℕ × Event)) (s : System)
      → IsTimed now es
      → All (IsPacedBy gap) es
      → IsConsistent s
      → Scheduled now s
      → Paced gap (run es s).starts
  unfolding run
  run-Scheduled now [] s m p v h = h.0
  run-Scheduled now ((t, e) ∷ es) s m p v h =
      run-Scheduled t es (step t e s) m.1 p.1 (step-IsConsistent t e s v)
        (step-Scheduled t e s p.0 v (h.0, later now t s m.0 h.1))

-- Since the gateway started, with a clock that does not run backwards and settings that always ask
-- for a gap of at least `gap`, itself at most ten minutes: two starts of one account are
-- at least `gap` apart, although the slots of idle accounts are dropped.
pub run-Paced :
    (gap : ℕ) (es : List (ℕ × Event))
    → gap ≤ max_gap
    → IsTimed 0 es
    → All (IsPacedBy gap) es
    → Paced gap (run es empty).starts
run-Paced gap es small m p =
    run-Scheduled gap small 0 es empty m p empty-IsConsistent
      (tt, record { past = λ k l e. cc; held = λ k l e. cc })
