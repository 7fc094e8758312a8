-- ===== src/RateLimiter/Tasks.antt =====
-- The coroutines at one slot: those in its queue, in the order of their arrival, and how many hold it.
use buddy2api.Prelude.{
  ℕ, suc, ◌+◌, ◌≤◌, ◌<◌, ◌≡◌, refl, Bool, true, false, not, ◌&&◌, some, List, [], ◌∷◌, ◌++◌, length,
  arith, ◌==◌, if◌then◌else◌, All, All-append, inl, inr, Bool-cases,
}
use buddy2api.RateLimiter.{Task, find_task, drop_task, replace_task, remove}

abbrev pub is_waiting_at : ℕ → Task → Bool
is_waiting_at a t = t.addr == a && not t.admitted

abbrev pub is_running_at : ℕ → Task → Bool
is_running_at a t = t.addr == a && t.admitted

-- The tokens in the queue of the slot at `a`.
abbrev pub waiting_at : ℕ → List Task → List ℕ
waiting_at a [] = []
waiting_at a (t ∷ ts) = if is_waiting_at a t then t.token ∷ waiting_at a ts else waiting_at a ts

abbrev pub running_at : ℕ → List Task → ℕ
running_at a [] = 0
running_at a (t ∷ ts) = if is_running_at a t then suc (running_at a ts) else running_at a ts

pub waiting_at-append :
    (a : ℕ) (ts us : List Task) → waiting_at a (ts ++ us) ≡ waiting_at a ts ++ waiting_at a us
waiting_at-append a [] us = refl
waiting_at-append a (t ∷ ts) us = ground (arith, waiting_at-append a ts us)

pub running_at-append :
    (a : ℕ) (ts us : List Task) → running_at a (ts ++ us) ≡ running_at a ts + running_at a us
running_at-append a [] us = omega arith
running_at-append a (t ∷ ts) us = ground (arith, running_at-append a ts us)

-- A coroutine that leaves the queue.
pub waiting_at-drop_waiting :
    (a token : ℕ) (t : Task) (ts : List Task)
    → find_task token ts ≡ some t
    → t.admitted ≡ false
    → waiting_at a (drop_task token ts)
      ≡ (if t.addr == a then remove token (waiting_at a ts) else waiting_at a ts)
waiting_at-drop_waiting a token t [] h w = cc
waiting_at-drop_waiting a token t (u ∷ ts) h w =
    ground (arith, waiting_at-drop_waiting a token t ts)

pub running_at-drop_waiting :
    (a token : ℕ) (t : Task) (ts : List Task)
    → find_task token ts ≡ some t
    → t.admitted ≡ false
    → running_at a (drop_task token ts) ≡ running_at a ts
running_at-drop_waiting a token t [] h w = cc
running_at-drop_waiting a token t (u ∷ ts) h w =
    ground (arith, running_at-drop_waiting a token t ts)

-- One that held a slot.
pub waiting_at-drop_running :
    (a token : ℕ) (t : Task) (ts : List Task)
    → find_task token ts ≡ some t
    → t.admitted ≡ true
    → waiting_at a (drop_task token ts) ≡ waiting_at a ts
waiting_at-drop_running a token t [] h w = cc
waiting_at-drop_running a token t (u ∷ ts) h w =
    ground (arith, waiting_at-drop_running a token t ts)

pub running_at-drop_running :
    (a token : ℕ) (t : Task) (ts : List Task)
    → find_task token ts ≡ some t
    → t.admitted ≡ true
    → running_at a ts ≡ (
        if t.addr == a
        then suc (running_at a (drop_task token ts))
        else running_at a (drop_task token ts))
running_at-drop_running a token t [] h w = cc
running_at-drop_running a token t (u ∷ ts) h w =
    ground (arith, running_at-drop_running a token t ts)

pub find_task-token :
    (token : ℕ) (t : Task) (ts : List Task) → find_task token ts ≡ some t → t.token ≡ token
find_task-token token t [] h = cc
find_task-token token t (u ∷ ts) h = ground (arith, find_task-token token t ts)

-- One that is admitted.
abbrev pub as_admitted : Task → Task
as_admitted t = record t { admitted = true }

pub waiting_at-replace_admitted :
    (a : ℕ) (t : Task) (ts : List Task)
    → find_task t.token ts ≡ some t
    → t.admitted ≡ false
    → waiting_at a (replace_task (as_admitted t) ts)
      ≡ (if t.addr == a then remove t.token (waiting_at a ts) else waiting_at a ts)
waiting_at-replace_admitted a t [] h w = cc
waiting_at-replace_admitted a t (u ∷ ts) h w = elim (Bool-cases (u.token == t.token)) [
  | inl same ↦ let e : u ≡ t = ground arith in rw (same, e) (ground arith)
  | inr other ↦ rw other (ground (arith, waiting_at-replace_admitted a t ts))
]

pub running_at-replace_admitted :
    (a : ℕ) (t : Task) (ts : List Task)
    → find_task t.token ts ≡ some t
    → t.admitted ≡ false
    → running_at a (replace_task (as_admitted t) ts)
      ≡ (if t.addr == a then suc (running_at a ts) else running_at a ts)
running_at-replace_admitted a t [] h w = cc
running_at-replace_admitted a t (u ∷ ts) h w = elim (Bool-cases (u.token == t.token)) [
  | inl same ↦ let e : u ≡ t = ground arith in rw (same, e) (ground arith)
  | inr other ↦ rw other (ground (arith, running_at-replace_admitted a t ts))
]

-- One that has slept.
abbrev pub as_waited : Task → Task
as_waited t = record t { waited = true }

pub waiting_at-replace_waited :
    (a : ℕ) (t : Task) (ts : List Task)
    → find_task t.token ts ≡ some t
    → waiting_at a (replace_task (as_waited t) ts) ≡ waiting_at a ts
waiting_at-replace_waited a t [] h = cc
waiting_at-replace_waited a t (u ∷ ts) h = elim (Bool-cases (u.token == t.token)) [
  | inl same ↦ let e : u ≡ t = ground arith in rw (same, e) (ground arith)
  | inr other ↦ rw other (ground (arith, waiting_at-replace_waited a t ts))
]

pub running_at-replace_waited :
    (a : ℕ) (t : Task) (ts : List Task)
    → find_task t.token ts ≡ some t
    → running_at a (replace_task (as_waited t) ts) ≡ running_at a ts
running_at-replace_waited a t [] h = cc
running_at-replace_waited a t (u ∷ ts) h = elim (Bool-cases (u.token == t.token)) [
  | inl same ↦ let e : u ≡ t = ground arith in rw (same, e) (ground arith)
  | inr other ↦ rw other (ground (arith, running_at-replace_waited a t ts))
]

-- The account and the address of each coroutine satisfy the relation.
abbrev pub Owns : (ℕ → ℕ → Type 0) → List Task → Type 0
Owns R = All (λ t. R t.aid t.addr)

module _ (R : ℕ → ℕ → Type 0) where
  pub Owns-drop_task : (token : ℕ) (ts : List Task) → Owns R ts → Owns R (drop_task token ts)
  Owns-drop_task token [] h = tt
  Owns-drop_task token (t ∷ ts) h = elim (Bool-cases (t.token == token)) [
    | inl e ↦ rw e h.1
    | inr e ↦ rw e (h.0, Owns-drop_task token ts h.1)
  ]

  pub Owns-find_task :
      (token : ℕ) (t : Task) (ts : List Task)
      → find_task token ts ≡ some t
      → Owns R ts
      → R t.aid t.addr
  Owns-find_task token t [] h o = cc
  Owns-find_task token t (u ∷ ts) h o = elim (Bool-cases (u.token == token)) [
    | inl e ↦ let same : u ≡ t = ground arith in rw (← same) o.0
    | inr e ↦ Owns-find_task token t ts (ground arith) o.1
  ]

  pub Owns-replace_task :
      (u : Task) (ts : List Task) → R u.aid u.addr → Owns R ts → Owns R (replace_task u ts)
  Owns-replace_task u [] r h = tt
  Owns-replace_task u (t ∷ ts) r h = elim (Bool-cases (t.token == u.token)) [
    | inl e ↦ rw e (r, h.1)
    | inr e ↦ rw e (h.0, Owns-replace_task u ts r h.1)
  ]

  pub Owns-append : (ts us : List Task) → Owns R ts → Owns R us → Owns R (ts ++ us)
  Owns-append ts us h k = All-append (λ t. R t.aid t.addr) ts us h k

-- What holds of the coroutines at busy slots, from what holds at the busy slots.
abbrev pub load : ℕ → List Task → ℕ
load a ts = length (waiting_at a ts) + running_at a ts

load-cons : (a : ℕ) (t : Task) (ts : List Task) → load a ts ≤ load a (t ∷ ts)
load-cons a t ts = ground arith

load_self : (t : Task) (ts : List Task) → 0 < load t.addr (t ∷ ts)
load_self t ts = ground arith

pub Owns-busy :
    (R Q : ℕ → ℕ → Type 0) (ts : List Task)
    → ((k a : ℕ) → R k a → 0 < load a ts → Q k a)
    → Owns R ts
    → Owns Q ts
Owns-busy R Q [] f h = tt
Owns-busy R Q (t ∷ ts) f h = (
  f t.aid t.addr h.0 (load_self t ts),
  Owns-busy R Q ts (λ k a r busy. f k a r (let grown = load-cons a t ts in omega arith)) h.1,
)
