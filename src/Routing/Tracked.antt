-- ===== src/Routing/Tracked.antt =====
-- routing.py: the windows stay within their bound, and the latest pick is always counted.
use buddy2api.Prelude.{
  ℕ, suc, ◌+◌, ◌≤◌, ◌≡◌, refl, sym, ap, ◌∙◌, subst, Bool, true, false, Bool-cases, inl, inr, Option,
  none, some, List, [], ◌∷◌, ◌++◌, ltb, leb, ◌==◌, ==_iff, if◌then◌else◌, length, arith,
}
use buddy2api.Routing.Windows.{
  Windows, max_tracked_accounts, prune_window, window_of, store, make_room, pick_into, note_pick,
  count_in, recent_starts,
}

length-store :
    (aid : ℕ) (window : List ℕ) (windows : Windows)
    → length (store aid window windows) ≤ suc (length windows)
length-store aid window [] = omega arith
length-store aid window ((id, old) ∷ windows) = elim (Bool-cases (id == aid)) [
  | inl t ↦ rw t (omega arith)
  | inr f ↦ rw f (omega (arith, length-store aid window windows))
]

length-store_known :
    (aid : ℕ) (window old : List ℕ) (windows : Windows)
    → window_of aid windows ≡ some old
    → length (store aid window windows) ≡ length windows
length-store_known aid window old [] h = absurd (cc h)
length-store_known aid window old ((id, w) ∷ windows) h = elim (Bool-cases (id == aid)) [
  | inl t ↦ rw t refl
  | inr f ↦ rw f (
      ap suc (
        length-store_known aid window old windows
          (sym (ap (λ b. if b then some w else window_of aid windows) f) ∙ h)))
]

window_of-store :
    (aid : ℕ) (window : List ℕ) (windows : Windows)
    → window_of aid (store aid window windows) ≡ some window
window_of-store aid window [] = rw ((==_iff aid aid).1 refl) refl
window_of-store aid window ((id, old) ∷ windows) = elim (Bool-cases (id == aid)) [
  | inl t ↦ rw (t, (==_iff aid aid).1 refl) refl
  | inr f ↦ rw (f, f) (window_of-store aid window windows)
]

length-make_room :
    (windows : Windows)
    → length windows ≤ max_tracked_accounts
    → suc (length (make_room windows)) ≤ max_tracked_accounts
length-make_room windows h = at (leb max_tracked_accounts (length windows)) refl
  where
    small : (n : ℕ) → leb max_tracked_accounts n ≡ false → suc n ≤ max_tracked_accounts
    small n k = ground arith

    at :
        (b : Bool)
        → leb max_tracked_accounts (length windows) ≡ b
        → let r : Windows = if b then [] else windows in suc (length r) ≤ max_tracked_accounts
    at true e = omega arith
    at false e = small (length windows) e

-- A window that ends with the present time is not empty, nor is what a prune leaves of it.
abbrev EndsAt : ℕ → List ℕ → Type 0
EndsAt now window = (front : List ℕ) × (window ≡ front ++ now ∷ [])

prune_window-EndsAt :
    (now span : ℕ) (front : List ℕ) → EndsAt now (prune_window now span (front ++ now ∷ []))
unfolding prune_window
prune_window-EndsAt now span [] = rw (fresh now span) ([], refl)
  where
    fresh : (n s : ℕ) → ltb (n + s) n ≡ false
    fresh n s = ground arith
prune_window-EndsAt now span (t ∷ front) = elim (Bool-cases (ltb (t + span) now)) [
  | inl l ↦ rw l (prune_window-EndsAt now span front)
  | inr l ↦ rw l (t ∷ front, refl)
]

counted :
    (aid now span : ℕ) (windows : Windows) (window : List ℕ)
    → EndsAt now window
    → window_of aid windows ≡ some window
    → 1 ≤ (count_in aid now span windows (window_of aid windows)).0
counted aid now span windows window (front, e) h =
    subst (λ o. 1 ≤ (count_in aid now span windows o).0) (sym (h ∙ ap (λ w. some w) e)) (at front)
  where
    positive : (w : List ℕ) → EndsAt now w → 1 ≤ length w
    positive [] (f, k) = absurd (none_ends f k)
      where
        none_ends : (f : List ℕ) → [] ≡ f ++ now ∷ [] → ⊥
        none_ends [] k = cc k
        none_ends (x ∷ f) k = cc k
    positive (x ∷ w) k = omega arith

    at : (f : List ℕ) → 1 ≤ (count_in aid now span windows (some (f ++ now ∷ []))).0
    at [] = positive (prune_window now span (now ∷ [])) (prune_window-EndsAt now span [])
    at (t ∷ f) =
        positive (prune_window now span (t ∷ f ++ now ∷ [])) (prune_window-EndsAt now span (t ∷ f))

stored_window :
    (aid now span : ℕ) (windows : Windows) (o : Option (List ℕ))
    → (w : List ℕ) × EndsAt now w × (window_of aid (pick_into aid now span windows o) ≡ some w)
stored_window aid now span windows none =
    let w = prune_window now span (now ∷ []) in
    (w, prune_window-EndsAt now span [], window_of-store aid w (make_room windows))
stored_window aid now span windows (some old) =
    let w = prune_window now span (old ++ now ∷ []) in
    (w, prune_window-EndsAt now span old, window_of-store aid w windows)

length-pick_into :
    (aid now span : ℕ) (windows : Windows) (o : Option (List ℕ))
    → window_of aid windows ≡ o
    → length windows ≤ max_tracked_accounts
    → length (pick_into aid now span windows o) ≤ max_tracked_accounts
length-pick_into aid now span windows none e h = omega (
  arith,
  length-store aid (prune_window now span (now ∷ [])) (make_room windows),
  length-make_room windows h,
)
length-pick_into aid now span windows (some old) e h =
    omega (arith, h, length-store_known aid (prune_window now span (old ++ now ∷ [])) old windows e)

-- A pick keeps the number of tracked accounts within its bound, and counts at once: asked at the same time, with any span, its account has
-- at least one recent start.
pub note_pick-recent_starts :
    (n now span asked : ℕ) (windows : Windows)
    → length windows ≤ max_tracked_accounts
    → (length (note_pick (suc n) now span windows) ≤ max_tracked_accounts)
      × (1 ≤ (recent_starts (suc n) now asked (note_pick (suc n) now span windows)).0)
unfolding note_pick recent_starts
note_pick-recent_starts n now span asked windows h =
    let picked = pick_into (suc n) now span windows (window_of (suc n) windows) in
    let (w, ends, e) = stored_window (suc n) now span windows (window_of (suc n) windows) in
    (
      length-pick_into (suc n) now span windows (window_of (suc n) windows) refl h,
      counted (suc n) now asked picked w ends e,
    )
