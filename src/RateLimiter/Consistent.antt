-- ===== src/RateLimiter/Consistent.antt =====
-- The slots always agree with the coroutines: each queue holds the waiting ones in the order of their
-- arrival, `active` counts the admitted ones, and the coroutines of one account share one slot.
use buddy2api.Prelude.{
  ℕ, zero, suc, ◌+◌, ◌≤◌, ◌<◌, ◌≡◌, refl, true, false, Option, none, some, List, [], ◌∷◌, length,
  append-nil, arith, leb, inl, inr, Bool-cases, update, update_self,
}
use buddy2api.RateLimiter.{
  Slot, Task, System, empty, find_task, is_stale, prune_entry, prune, default_slot, setdefault,
  new_task, join, enter, leave_queue, release, max_waiters,
}
use buddy2api.RateLimiter.Tasks.{
  waiting_at, running_at, waiting_at-append, running_at-append, waiting_at-drop_waiting,
  running_at-drop_waiting, waiting_at-drop_running, running_at-drop_running, Owns, Owns-drop_task,
  Owns-append, load, Owns-busy,
}

pub record IsConsistent (s : System) : Type 0 where
  pub waiting : (a : ℕ) → (s.heap a).waiting ≡ waiting_at a s.tasks
  pub active : (a : ℕ) → (s.heap a).active ≡ running_at a s.tasks
  pub shared : Owns (λ k a. s.table k ≡ some a) s.tasks
  pub below : (k a : ℕ) → s.table k ≡ some a → a < s.next
  pub single : (j k a : ℕ) → s.table j ≡ some a → s.table k ≡ some a → j ≡ k

pub empty-IsConsistent : IsConsistent empty
empty-IsConsistent = record {
  waiting = λ a. refl;
  active = λ a. refl;
  shared = tt;
  below = λ k a e. cc;
  single = λ j k a e f. cc;
}

-- The clean-up forgets no slot that a coroutine waits for or holds.
not_stale :
    (now : ℕ) (slot : Slot) → 0 < length slot.waiting + slot.active → is_stale now slot ≡ false
not_stale now slot h = grind arith

busy-kept :
    (now a : ℕ) (o : Option ℕ) (ts : List Task) (heap : ℕ → Slot)
    → (heap a).waiting ≡ waiting_at a ts
    → (heap a).active ≡ running_at a ts
    → 0 < load a ts
    → o ≡ some a
    → prune_entry now heap o ≡ some a
busy-kept now a o ts heap w r busy e =
    let held : 0 < length (heap a).waiting + (heap a).active = rw (w, r) busy in
    rw (e, not_stale now (heap a) held) refl

pruned : (now a : ℕ) (heap : ℕ → Slot) (o : Option ℕ) → prune_entry now heap o ≡ some a → o ≡ some a
pruned now a heap none e = cc
pruned now a heap (some b) e = ground arith

pub prune-IsConsistent : (now : ℕ) (s : System) → IsConsistent s → IsConsistent (prune now s)
unfolding prune
prune-IsConsistent now s v = record {
  waiting = v.waiting;
  active = v.active;
  shared =
      Owns-busy (λ k a. s.table k ≡ some a) (λ k a. prune_entry now s.heap (s.table k) ≡ some a)
        s.tasks
        (λ k a e busy. busy-kept now a (s.table k) s.tasks s.heap (v.waiting a) (v.active a) busy e)
        v.shared;
  below = λ k a e. v.below k a (pruned now a s.heap (s.table k) e);
  single = λ j k a e f.
      v.single j k a (pruned now a s.heap (s.table j) e) (pruned now a s.heap (s.table k) f);
}

-- No coroutine is at an address that is not in use yet.
no_load :
    (n a : ℕ) (ts : List Task)
    → Owns (λ _ b. b < n) ts
    → n ≤ a
    → (waiting_at a ts ≡ []) × (running_at a ts ≡ 0)
no_load n a [] h le = (refl, refl)
no_load n a (t ∷ ts) h le = let ih = no_load n a ts h.1 le in ground arith

unused :
    (s : System)
    → IsConsistent s
    → (waiting_at s.next s.tasks ≡ []) × (running_at s.next s.tasks ≡ 0)
unused s v =
    no_load s.next s.next s.tasks
      (Owns-busy (λ k a. s.table k ≡ some a) (λ _ b. b < s.next) s.tasks (λ k a e _. v.below k a e)
        v.shared)
      (omega arith)

default_slot-single :
    (aid : ℕ) (s : System)
    → IsConsistent s
    → (j k a : ℕ) → update s.table aid (some s.next) j ≡ some a
    → update s.table aid (some s.next) k ≡ some a
    → j ≡ k
default_slot-single aid s v j k a f g = ground (arith, v.single j k a, v.below j a, v.below k a)

-- The slot that an account is given: what it had, or a new one.
pub default_slot-IsConsistent :
    (aid : ℕ) (s : System) (o : Option ℕ)
    → s.table aid ≡ o
    → IsConsistent s
    → let (a, s') = default_slot aid s o in IsConsistent s' × (s'.table aid ≡ some a)
default_slot-IsConsistent aid s (some a) e v = (v, e)
default_slot-IsConsistent aid s none e v = (
  record {
    waiting = λ a. let u = unused s v in let w = v.waiting a in ground arith;
    active = λ a. let u = unused s v in let w = v.active a in ground arith;
    shared =
        Owns-busy (λ k a. s.table k ≡ some a) (λ k a. update s.table aid (some s.next) k ≡ some a)
          s.tasks (λ k a f _. ground arith) v.shared;
    below = λ k a f. let b = v.below k a in ground arith;
    single = default_slot-single aid s v;
  },
  update_self s.table aid (some s.next),
)

pub join-IsConsistent :
    (aid token now a : ℕ) (s : System)
    → s.table aid ≡ some a
    → IsConsistent s
    → IsConsistent (join aid token now (a, s))
unfolding join
join-IsConsistent aid token now a s e v =
    elim (Bool-cases (leb max_waiters (length (s.heap a).waiting))) [
      | inl full ↦ rw full v
      | inr room ↦ rw room (record {
        waiting = λ b.
            let w = v.waiting b in
            let l = waiting_at-append b s.tasks (new_task token aid a now ∷ []) in
            ground (arith, append-nil (waiting_at b s.tasks));
        active = λ b.
            let w = v.active b in
            let l = running_at-append b s.tasks (new_task token aid a now ∷ []) in ground arith;
        shared =
            Owns-append (λ k b. s.table k ≡ some b) s.tasks (new_task token aid a now ∷ []) v.shared
              (e, tt);
        below = v.below;
        single = v.single;
      })
    ]

pub enter-IsConsistent :
    (aid token now : ℕ) (s : System) → IsConsistent s → IsConsistent (enter aid token now s)
unfolding enter
enter-IsConsistent zero token now s v = v
enter-IsConsistent (suc k) token now s v =
    let p = prune now s in
    let c =
      default_slot-IsConsistent (suc k) p (p.table (suc k)) refl (prune-IsConsistent now s v) in
    let found = setdefault (suc k) p in join-IsConsistent (suc k) token now found.0 found.1 c.1 c.0

-- A coroutine of the system.
abbrev pub IsTask : Task → System → Type 0
IsTask t s = find_task t.token s.tasks ≡ some t

pub leave_queue-IsConsistent :
    (t : Task) (s : System)
    → IsTask t s
    → t.admitted ≡ false
    → IsConsistent s
    → IsConsistent (leave_queue t s)
unfolding leave_queue
leave_queue-IsConsistent t s here w v = record {
  waiting = λ a.
      ground (arith, v.waiting a, v.waiting t.addr, waiting_at-drop_waiting a t.token t s.tasks);
  active =
      λ a. ground (arith, v.active a, v.active t.addr, running_at-drop_waiting a t.token t s.tasks);
  shared = Owns-drop_task (λ k a. s.table k ≡ some a) t.token s.tasks v.shared;
  below = v.below;
  single = v.single;
}

pub release-IsConsistent :
    (t : Task) (s : System)
    → IsTask t s
    → t.admitted ≡ true
    → IsConsistent s
    → IsConsistent (release t s)
unfolding release
release-IsConsistent t s here w v = record {
  waiting = λ a.
      ground (arith, v.waiting a, v.waiting t.addr, waiting_at-drop_running a t.token t s.tasks);
  active =
      λ a. ground (arith, v.active a, v.active t.addr, running_at-drop_running a t.token t s.tasks);
  shared = Owns-drop_task (λ k a. s.table k ≡ some a) t.token s.tasks v.shared;
  below = v.below;
  single = v.single;
}
