-- ===== src/Picker/Pinned.antt =====
-- auth_manager.py, `pick_account` under a pin.
use buddy2api.Prelude.{
  ◌≡◌, refl, Bool, true, false, ◌||◌, Bool-cases, inl, inr, Option, none, some, List, [], ◌∷◌,
  String, ◌==◌, ==_iff, if◌then◌else◌,
}
use buddy2api.Routing.{Account}
use buddy2api.Picker.{
  Pool, Memory, note_pick, pinned_for, find_id, or_pinned, pick_pinned, pick_account,
}

-- Nothing is picked exactly where the id is zero, left out or cooling down, and nothing is remembered then; else the account with the pinned id is, and only the pick itself is noted.
abbrev pub IsPinnedPick : Pool → Account → Memory → Option Account × Memory → Type 0
IsPinnedPick pool pinned m (none, after) =
    (pinned.id == 0 || (pool.excluded pinned.id || pool.cooling pinned.id) ≡ true) × (after ≡ m)
IsPinnedPick pool pinned m (some a, after) =
    (a.id ≡ pinned.id)
    × (pinned.id == 0 ≡ false)
    × (pool.excluded pinned.id ≡ false)
    × (pool.cooling pinned.id ≡ false)
    × (after ≡ note_pick pinned.id m)

found :
    (pinned : Account) (accounts : List Account)
    → (or_pinned pinned (find_id pinned.id accounts)).id ≡ pinned.id
found pinned [] = refl
found pinned (a ∷ accounts) = elim (Bool-cases (a.id == pinned.id)) [
  | inl t ↦ rw t ((==_iff a.id pinned.id).0 t)
  | inr f ↦ rw f (found pinned accounts)
]

pick_pinned-IsPinnedPick :
    (pool : Pool) (pinned : Account) (m : Memory)
    → IsPinnedPick pool pinned m (pick_pinned pool pinned m)
unfolding pick_pinned
pick_pinned-IsPinnedPick pool pinned m =
    at (pinned.id == 0) (pool.excluded pinned.id) (pool.cooling pinned.id) refl refl refl
  where
    at :
        (z e c : Bool)
        → pinned.id == 0 ≡ z
        → pool.excluded pinned.id ≡ e
        → pool.cooling pinned.id ≡ c
        → let r : Option Account × Memory = if z || (e || c) then (none, m) else (
          some (or_pinned pinned (find_id pinned.id pool.accounts)),
          note_pick pinned.id m,
        ) in
          IsPinnedPick pool pinned m r
    at true e c o p q = (rw o refl, refl)
    at false true c o p q = (rw (o, p) refl, refl)
    at false false true o p q = (rw (o, p, q) refl, refl)
    at false false false o p q = (found pinned pool.accounts, o, p, q, refl)

-- A pinned hop never drifts: the provider gets the account with the pinned id, and the pick is noted; it gets none exactly where that id is zero, left out or cooling down, and then the memory stays as it was.
pub pick_account-IsPinnedPick :
    (pool : Pool) (pin : Option Account) (pinned : Account) (provider : String) (m : Memory)
    → pinned_for pin provider ≡ some pinned
    → IsPinnedPick pool pinned m (pick_account pool pin provider m)
unfolding pick_account
pick_account-IsPinnedPick pool pin pinned provider m h =
    rw h (pick_pinned-IsPinnedPick pool pinned m)
