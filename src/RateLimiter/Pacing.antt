-- ===== src/RateLimiter/Pacing.antt =====
-- The starts of one account keep their distance, although the slots of idle accounts are forgotten.
use buddy2api.Prelude.{
  ℕ, zero, suc, ◌+◌, ◌≤◌, ◌<◌, ◌≡◌, ◌≢◌, refl, sym, ap, ◌∙◌, ◌⊎◌, inl, inr, true, Option, none,
  some, List, [], ◌∷◌, arith, ◌==◌, if◌then◌else◌, Bool-cases, Option-cases,
}
use buddy2api.RateLimiter.Settings.{Limits, max_gap}
use buddy2api.RateLimiter.{
  Slot, Task, System, is_stale, prune, default_slot, setdefault, join, enter, leave_queue, release,
  may_start, admit,
}
use buddy2api.RateLimiter.Consistent.{IsConsistent, prune-IsConsistent}

-- The latest start of the account.
abbrev pub last_of : ℕ → List (ℕ × ℕ) → Option ℕ
last_of k [] = none
last_of k ((j, t) ∷ r) = if j == k then some t else last_of k r

abbrev pub IsAfter : ℕ → ℕ → Option ℕ → Type 0
IsAfter gap t none = Unit
IsAfter gap t (some l) = l + gap ≤ t

-- Newest first: each start is at least `gap` after the latest earlier one of its account.
abbrev pub Paced : ℕ → List (ℕ × ℕ) → Type 0
Paced gap [] = Unit
Paced gap ((k, t) ∷ r) = IsAfter gap t (last_of k r) × Paced gap r

-- The slot of the account has its latest start.
abbrev pub HasLast : System → ℕ → ℕ → Type 0
HasLast s k l = (a : ℕ) × (s.table k ≡ some a) × ((s.heap a).last_start ≡ some l)

-- A start that the slots have forgotten is more than the largest gap ago.
pub record Remembers (now : ℕ) (s : System) : Type 0 where
  pub past : (k l : ℕ) → last_of k s.starts ≡ some l → l ≤ now
  pub held : (k l : ℕ) → last_of k s.starts ≡ some l → (l + max_gap < now) ⊎ HasLast s k l

pub later : (now t : ℕ) (s : System) → now ≤ t → Remembers now s → Remembers t s
later now t s le h = record {
  past = λ k l e. let p = h.past k l e in omega arith;
  held = λ k l e. elim (h.held k l e) [ inl old ↦ inl (omega arith) | inr x ↦ inr x ];
}

-- Events that change no `last_start`, no entry of the dict and no start.
pub same_view :
    (now : ℕ) (s u : System)
    → u.starts ≡ s.starts
    → u.table ≡ s.table
    → ((a : ℕ) → (u.heap a).last_start ≡ (s.heap a).last_start)
    → Remembers now s
    → Remembers now u
same_view now s u es et eh h = record {
  past = λ k l e. h.past k l (ap (last_of k) (sym es) ∙ e);
  held = λ k l e. elim (h.held k l (ap (last_of k) (sym es) ∙ e)) [
    | inl old ↦ inl old
    | inr (a, p, q) ↦ inr (a, ap (λ (f : ℕ → Option ℕ). f k) et ∙ p, eh a ∙ q)
  ];
}

stale_means :
    (now l : ℕ) (slot : Slot)
    → slot.last_start ≡ some l
    → is_stale now slot ≡ true
    → l + max_gap < now
stale_means now l slot e h = grind arith

prune-Remembers : (now : ℕ) (s : System) → Remembers now s → Remembers now (prune now s)
unfolding prune
prune-Remembers now s h = record {
  past = h.past;
  held = λ k l e. elim (h.held k l e) [
    | inl old ↦ inl old
    | inr (a, p, q) ↦ elim (Bool-cases (is_stale now (s.heap a))) [
      | inl stale ↦ inl (stale_means now l (s.heap a) q stale)
      | inr kept ↦ inr (a, rw (p, kept) refl, q)
    ]
  ];
}

default_slot-Remembers :
    (now aid : ℕ) (s : System) (o : Option ℕ)
    → s.table aid ≡ o
    → IsConsistent s
    → Remembers now s
    → Remembers now (default_slot aid s o).1
default_slot-Remembers now aid s (some a) e v h = h
default_slot-Remembers now aid s none e v h = record {
  past = h.past;
  held = λ k l f. elim (h.held k l f) [
    | inl old ↦ inl old
    | inr (a, p, q) ↦ let low = v.below k a p in inr (a, ground arith, ground arith)
  ];
}

join-Remembers :
    (now aid token a : ℕ) (s : System) → Remembers now s → Remembers now (join aid token now (a, s))
unfolding join
join-Remembers now aid token a s h =
    same_view now s (join aid token now (a, s)) (ground arith) (ground arith) (λ b. ground arith) h

pub enter-Remembers :
    (aid token now : ℕ) (s : System)
    → IsConsistent s
    → Remembers now s
    → Remembers now (enter aid token now s)
unfolding enter
enter-Remembers zero token now s v h = h
enter-Remembers (suc k) token now s v h =
    let p = prune now s in
    let found = setdefault (suc k) p in
    join-Remembers now (suc k) token found.0 found.1 (
      default_slot-Remembers now (suc k) p (p.table (suc k)) refl (prune-IsConsistent now s v)
        (prune-Remembers now s h))

pub leave_queue-Remembers :
    (now : ℕ) (t : Task) (s : System) → Remembers now s → Remembers now (leave_queue t s)
unfolding leave_queue
leave_queue-Remembers now t s h = same_view now s (leave_queue t s) refl refl (λ b. ground arith) h

pub release-Remembers :
    (now : ℕ) (t : Task) (s : System) → Remembers now s → Remembers now (release t s)
unfolding release
release-Remembers now t s h = same_view now s (release t s) refl refl (λ b. ground arith) h

-- An admission is remembered by the slot of its account, and by no other.
pub admit-Remembers :
    (now : ℕ) (t : Task) (s : System)
    → s.table t.aid ≡ some t.addr
    → IsConsistent s
    → Remembers now s
    → Remembers now (admit now t s)
unfolding admit
admit-Remembers now t s own v h = record {
  past = λ k l e. let p = h.past k l in ground arith;
  held = λ k l e. elim (Bool-cases (t.aid == k)) [
    | inl mine ↦ inr (t.addr, ground arith, ground arith)
    | inr other ↦ elim (h.held k l (ground arith)) [
      | inl old ↦ inl old
      | inr (a, p, q) ↦
          let apart : a ≢ t.addr = λ same. ground (arith, v.single t.aid k a) in
          inr (a, p, ground arith)
    ]
  ];
}

-- What the start of an account waits for.
pub admit-Paced :
    (gap now : ℕ) (cfg : Limits) (t : Task) (s : System)
    → gap ≤ cfg.interval
    → gap ≤ max_gap
    → s.table t.aid ≡ some t.addr
    → may_start cfg now t.token (s.heap t.addr) ≡ true
    → Remembers now s
    → IsAfter gap now (last_of t.aid s.starts)
admit-Paced gap now cfg t s g m own may h = elim (Option-cases (last_of t.aid s.starts)) [
  | inl first ↦ rw first tt
  | inr (l, e) ↦ rw e (elim (h.held t.aid l e) [
    | inl old ↦ omega arith
    | inr (a, p, q) ↦ let same : a ≡ t.addr = ground arith in ground arith
  ])
]
