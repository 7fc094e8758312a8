-- ===== src/History/Kept.antt =====
-- router.py, `_trim_history`: what is left of a history that is cut.
use buddy2api.Prelude.{
  ℕ, zero, suc, ◌≤◌, ◌<◌, ◌≡◌, refl, sym, ap, ◌∙◌, Bool, true, false, not, ◌&&◌, Bool-cases, inl,
  inr, ◌⊎◌, Option, none, some, List, [], ◌∷◌, String, arith, length, ltb, if◌then◌else◌, str_eq,
  str_eq_iff,
}
use mathlib.Core.List.{Sublist}
use mathlib.Core.List.Sublist
use buddy2api.History.{
  Json, arr, Items, no_items, item, Fields, no_fields, field, get, set_field, of_list, to_list,
  estimate_prompt_tokens, history_segments, all_system, with_first, drop_first, or_tail,
  drop_segment, with_items, trim_segments, trim_history, flatten,
}
use buddy2api.History.Segments.{history_segments-IsGrouped}

-- The newest segment, empty where there is none.
abbrev pub newest : List (List Json) → List Json
newest [] = []
newest (s ∷ []) = s
newest (s ∷ t ∷ rest) = newest (t ∷ rest)

-- One list of segments is another one with one segment less, and with the same newest one.
abbrev Less : List (List Json) → List (List Json) → Type 0
Less segments rest =
    (length segments ≡ suc (length rest))
    × Sublist rest segments
    × (newest rest ≡ newest segments)
    × (0 < length rest)

abbrev LessIf : List (List Json) → Option (List (List Json)) → Type 0
LessIf segments none = Unit
LessIf segments (some rest) = Less segments rest

newest_add :
    (s : List Json) (rest : List (List Json)) → 0 < length rest → newest (s ∷ rest) ≡ newest rest
newest_add s [] h = absurd (omega (arith, h))
newest_add s (t ∷ rest) h = refl

with_first-Less :
    (s t : List Json) (rest : List (List Json)) (o : Option (List (List Json)))
    → LessIf (t ∷ rest) o
    → LessIf (s ∷ t ∷ rest) (with_first s o)
with_first-Less s t rest none h = tt
with_first-Less s t rest (some r) (n, sub, same, positive) =
    (omega (arith, n), Sublist.cons-cons s sub, newest_add s r positive ∙ same, omega arith)

drop_first-Less : (segments : List (List Json)) → LessIf segments (drop_first segments)
unfolding drop_first
drop_first-Less [] = tt
drop_first-Less (s ∷ []) = tt
drop_first-Less (s ∷ t ∷ rest) = elim (Bool-cases (not (all_system s))) [
  | inl h ↦ rw h (refl, Sublist.cons s (Sublist.refl (t ∷ rest)), refl, omega arith)
  | inr h ↦ rw h (with_first-Less s t rest (drop_first (t ∷ rest)) (drop_first-Less (t ∷ rest)))
]

or_tail-Less :
    (s t : List Json) (rest : List (List Json)) (o : Option (List (List Json)))
    → LessIf (s ∷ t ∷ rest) o
    → Less (s ∷ t ∷ rest) (or_tail (s ∷ t ∷ rest) o)
or_tail-Less s t rest none h = (refl, Sublist.cons s (Sublist.refl (t ∷ rest)), refl, omega arith)
or_tail-Less s t rest (some r) h = h

drop_segment-Less :
    (segments : List (List Json)) → 1 < length segments → Less segments (drop_segment segments)
unfolding drop_segment
drop_segment-Less [] h = absurd (omega (arith, h))
drop_segment-Less (s ∷ []) h = absurd (omega (arith, h))
drop_segment-Less (s ∷ t ∷ rest) h =
    or_tail-Less s t rest (drop_first (s ∷ t ∷ rest)) (drop_first-Less (s ∷ t ∷ rest))

pub get-set_field :
    (key : String) (v w : Json) (payload : Fields)
    → get key payload ≡ some w
    → get key (set_field key v payload) ≡ some v
get-set_field key v w no_fields h = absurd (cc h)
get-set_field key v w (field k j fields) h = elim (Bool-cases (str_eq k key)) [
  | inl t ↦ rw (t, t) refl
  | inr f ↦
      rw (f, f)
        (get-set_field key v w fields (sym (ap (λ b. if b then some j else get key fields) f) ∙ h))
]

pub get-set_other :
    (key other : String) (v : Json) (payload : Fields)
    → str_eq key other ≡ false
    → get other (set_field key v payload) ≡ get other payload
get-set_other key other v no_fields h = refl
get-set_other key other v (field k j fields) h = elim (Bool-cases (str_eq k key)) [
  | inl t ↦
      let away : str_eq k other ≡ false = ap (λ s. str_eq s other) ((str_eq_iff k key).0 t) ∙ h in
      rw (t, away) refl
  | inr f ↦
      rw f (ap (λ o. if str_eq k other then some j else o) (get-set_other key other v fields h))
]

module _ (key : String) (limit : ℕ) where
  -- The payload holds the segments under its key.
  abbrev pub Holds : Fields → List (List Json) → Type 0
  Holds payload segments = get key payload ≡ some (arr (of_list (flatten segments)))

  -- What the loop leaves of a payload and its segments.
  abbrev pub IsCut : Fields → List (List Json) → Fields × List (List Json) → Type 0
  IsCut payload segments (p, rest) =
      Sublist rest segments
      × (newest rest ≡ newest segments)
      × Holds p rest
      × ((estimate_prompt_tokens p ≤ limit) ⊎ (length rest ≤ 1))
      × ((other : String) → str_eq key other ≡ false → get other p ≡ get other payload)

  stop :
      (payload : Fields) (segments : List (List Json))
      → Holds payload segments
      → (ltb limit (estimate_prompt_tokens payload) && ltb 1 (length segments)) ≡ false
      → IsCut payload segments (payload, segments)
  stop payload segments h k = (
    Sublist.refl segments,
    refl,
    h,
    bounds limit (estimate_prompt_tokens payload) (length segments) k,
    λ other a. refl,
  )
    where
      bounds : (l e n : ℕ) → (ltb l e && ltb 1 n) ≡ false → (e ≤ l) ⊎ (n ≤ 1)
      bounds l e n q = ground arith

  cut :
      (fuel : ℕ) (payload : Fields) (segments : List (List Json))
      → length segments ≤ fuel
      → Holds payload segments
      → IsCut payload segments (trim_segments fuel key limit payload segments)
  unfolding trim_segments
  cut zero payload segments n h =
      (Sublist.refl segments, refl, h, inr (omega (arith, n)), λ other a. refl)
  cut (suc fuel) payload segments n h =
      go (ltb limit (estimate_prompt_tokens payload) && ltb 1 (length segments)) refl (cut fuel)
    where
      longer : (l e m : ℕ) → (ltb l e && ltb 1 m) ≡ true → 1 < m
      longer l e m q = ground arith

      go :
          (b : Bool)
          → (ltb limit (estimate_prompt_tokens payload) && ltb 1 (length segments)) ≡ b
          → ((p : Fields) (s : List (List Json))
              → length s ≤ fuel
              → Holds p s
              → IsCut p s (trim_segments fuel key limit p s))
          → IsCut payload segments (elim b [
            | true ↦
                trim_segments fuel key limit
                  (with_items key (drop_segment segments) payload)
                  (drop_segment segments)
            | false ↦ (payload, segments)
          ])
      go false e rec = stop payload segments h e
      go true e rec =
          let rest = drop_segment segments in
          let (less, sub, same, positive) =
            drop_segment-Less segments
              (longer limit (estimate_prompt_tokens payload) (length segments) e) in
          let value = arr (of_list (flatten rest)) in
          let r =
            rec (with_items key rest payload) rest (omega (arith, less, n))
              (get-set_field key value _ payload h) in
          (
            Sublist.trans r.0 sub,
            r.1 ∙ same,
            r.2,
            r.3,
            λ other a. r.4 other a ∙ get-set_other key other value payload a,
          )

  of_list-to_list : (items : Items) → of_list (to_list items) ≡ items
  of_list-to_list no_items = refl
  of_list-to_list (item j items) = ap (λ l. item j l) (of_list-to_list items)

  -- A cut takes whole segments off the history, in place and never the newest one; it ends with a prompt that fits or with one segment; the payload
  -- holds what is left, and its other fields are as before.
  pub trim_history-IsCut :
      (payload : Fields) (items : Items)
      → get key payload ≡ some (arr items)
      → IsCut payload
          (history_segments (to_list items))
          (trim_history payload key (to_list items) limit)
  unfolding trim_history
  trim_history-IsCut payload items h =
      let segments = history_segments (to_list items) in
      let whole = (history_segments-IsGrouped (to_list items)).0 in
      cut (length segments) payload segments (omega arith) (
        h
        ∙ ap (λ l. some (arr l)) (sym (of_list-to_list items))
        ∙ ap (λ l. some (arr (of_list l))) (sym whole))
