-- ===== src/RateLimiter/Reachable.antt =====
-- The agreement of slots and coroutines through every event of a run.
use buddy2api.Prelude.{
  ℕ, ◌-◌, ◌≡◌, refl, sym, ◌∙◌, Bool, true, false, Option, none, some, List, [], ◌∷◌, arith, leb,
  ◌==◌, inl, inr, Bool-cases, Option-cases, ◌&&◌,
}
use mathlib.Core.Path.{subst}
use buddy2api.RateLimiter.Settings.{Limits}
use buddy2api.RateLimiter.{
  Slot, Task, System, find_task, replace_task, remove, popleft, release, may_start, admit, settle,
  poll, Event, arrive, wake, cancel, finish, resume, resume_found, step, run,
}
use buddy2api.RateLimiter.Tasks.{
  find_task-token, as_admitted, waiting_at-replace_admitted, running_at-replace_admitted, as_waited,
  waiting_at-replace_waited, running_at-replace_waited, Owns-find_task, Owns-replace_task,
}
use buddy2api.RateLimiter.Consistent.{
  IsConsistent, IsTask, enter-IsConsistent, leave_queue-IsConsistent, release-IsConsistent,
}

-- Only the head of the queue starts.
popleft-remove :
    (cfg : Limits) (now token : ℕ) (slot : Slot)
    → may_start cfg now token slot ≡ true
    → popleft slot.waiting ≡ remove token slot.waiting
popleft-remove cfg now token slot h = ground arith

pub admit-IsConsistent :
    (cfg : Limits) (now : ℕ) (t : Task) (s : System)
    → may_start cfg now t.token (s.heap t.addr) ≡ true
    → IsTask t s
    → t.admitted ≡ false
    → IsConsistent s
    → IsConsistent (admit now t s)
unfolding admit
admit-IsConsistent cfg now t s may here w v = record {
  waiting = λ a. ground (
    arith,
    v.waiting a,
    v.waiting t.addr,
    popleft-remove cfg now t.token (s.heap t.addr),
    waiting_at-replace_admitted a t s.tasks,
  );
  active =
      λ a. ground (arith, v.active a, v.active t.addr, running_at-replace_admitted a t s.tasks);
  shared =
      Owns-replace_task (λ k a. s.table k ≡ some a) (as_admitted t) s.tasks
        (Owns-find_task (λ k a. s.table k ≡ some a) t.token t s.tasks here v.shared) v.shared;
  below = v.below;
  single = v.single;
}

find_task-replace_task :
    (t u : Task) (ts : List Task)
    → u.token ≡ t.token
    → find_task t.token ts ≡ some t
    → find_task u.token (replace_task u ts) ≡ some u
find_task-replace_task t u [] e h = cc
find_task-replace_task t u (x ∷ ts) e h = elim (Bool-cases (x.token == u.token)) [
  | inl same ↦ rw same (ground arith)
  | inr other ↦ rw other (rw other (find_task-replace_task t u ts e (ground arith)))
]

admit-IsTask :
    (now : ℕ) (t : Task) (s : System) → IsTask t s → IsTask (as_admitted t) (admit now t s)
unfolding admit
admit-IsTask now t s here = find_task-replace_task t (as_admitted t) s.tasks refl here

pub settle-IsConsistent :
    (cooling : Bool) (t : Task) (s : System)
    → IsTask (as_admitted t) s
    → IsConsistent s
    → IsConsistent (settle cooling t s)
unfolding release
settle-IsConsistent cooling t s here v = elim (Bool-cases (t.waited && cooling)) [
  | inl refused ↦ rw refused (release-IsConsistent (as_admitted t) s here refl v)
  | inr fine ↦ rw fine v
]

waited-IsConsistent :
    (t : Task) (s : System)
    → IsTask t s
    → IsConsistent s
    → IsConsistent (record s { tasks = replace_task (as_waited t) s.tasks })
waited-IsConsistent t s here v = record {
  waiting = λ a. v.waiting a ∙ sym (waiting_at-replace_waited a t s.tasks here);
  active = λ a. v.active a ∙ sym (running_at-replace_waited a t s.tasks here);
  shared =
      Owns-replace_task (λ k a. s.table k ≡ some a) (as_waited t) s.tasks
        (Owns-find_task (λ k a. s.table k ≡ some a) t.token t s.tasks here v.shared) v.shared;
  below = v.below;
  single = v.single;
}

pub poll-IsConsistent :
    (cfg : Limits) (now : ℕ) (cooling : Bool) (t : Task) (s : System)
    → IsTask t s
    → t.admitted ≡ false
    → IsConsistent s
    → IsConsistent (poll cfg now cooling t s)
unfolding poll
poll-IsConsistent cfg now cooling t s here w v =
    elim (Bool-cases (leb cfg.queue_timeout (now - t.started))) [
      | inl late ↦ rw late (leave_queue-IsConsistent t s here w v)
      | inr early ↦ elim (Bool-cases (may_start cfg now t.token (s.heap t.addr))) [
        | inl may ↦
            rw (early, may)
              (settle-IsConsistent cooling t (admit now t s) (admit-IsTask now t s here)
                (admit-IsConsistent cfg now t s may here w v))
        | inr wait ↦ rw (early, wait) (waited-IsConsistent t s here v)
      ]
    ]

resume-IsConsistent :
    (now : ℕ) (e : Event) (t : Task) (s : System)
    → IsTask t s
    → IsConsistent s
    → IsConsistent (resume now e t s)
resume-IsConsistent now (arrive a k) t s here v = v
resume-IsConsistent now (wake k cfg c) t s here v = elim (Bool-cases t.admitted) [
  | inl in_use ↦ simp in_use v
  | inr in_queue ↦ simp in_queue (poll-IsConsistent cfg now c t s here in_queue v)
]
resume-IsConsistent now (cancel k) t s here v = elim (Bool-cases t.admitted) [
  | inl in_use ↦ simp in_use (release-IsConsistent t s here in_use v)
  | inr in_queue ↦ simp in_queue (leave_queue-IsConsistent t s here in_queue v)
]
resume-IsConsistent now (finish k) t s here v = elim (Bool-cases t.admitted) [
  | inl in_use ↦ simp in_use (release-IsConsistent t s here in_use v)
  | inr in_queue ↦ simp in_queue v
]

resume_found-IsConsistent :
    (now token : ℕ) (e : Event) (o : Option Task) (s : System)
    → find_task token s.tasks ≡ o
    → IsConsistent s
    → IsConsistent (resume_found now e o s)
resume_found-IsConsistent now token e none s h v = v
resume_found-IsConsistent now token e (some t) s h v =
    resume-IsConsistent now e t s
      (subst (λ x. find_task x s.tasks ≡ some t) (sym (find_task-token token t s.tasks h)) h) v

pub step-IsConsistent :
    (now : ℕ) (e : Event) (s : System) → IsConsistent s → IsConsistent (step now e s)
unfolding step
step-IsConsistent now (arrive aid token) s v = elim (Option-cases (find_task token s.tasks)) [
  | inl new ↦ rw (new, step) (enter-IsConsistent aid token now s v)
  | inr (t, used) ↦ rw (used, step) v
]
step-IsConsistent now (wake token cfg c) s v =
    resume_found-IsConsistent now token (wake token cfg c) (find_task token s.tasks) s refl v
step-IsConsistent now (cancel token) s v =
    resume_found-IsConsistent now token (cancel token) (find_task token s.tasks) s refl v
step-IsConsistent now (finish token) s v =
    resume_found-IsConsistent now token (finish token) (find_task token s.tasks) s refl v

-- After any events, at any times, from the start of the gateway or any consistent system: every queue
-- holds exactly the waiting coroutines of its slot in the order of their arrival, `active` counts
-- the admitted ones, each coroutine's reference is the slot that the dict has for its account, and no
-- two accounts share a slot.
pub run-IsConsistent :
    (es : List (ℕ × Event)) (s : System) → IsConsistent s → IsConsistent (run es s)
unfolding run
run-IsConsistent [] s v = v
run-IsConsistent ((now, e) ∷ es) s v =
    run-IsConsistent es (step now e s) (step-IsConsistent now e s v)
