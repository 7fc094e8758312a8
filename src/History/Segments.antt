-- ===== src/History/Segments.antt =====
-- router.py, `_history_segments`: the cut of a history into segments.
use buddy2api.Prelude.{
  ◌≡◌, true≢false, refl, sym, ap, ◌∙◌, Bool, true, false, inl, inr, ◌⊎◌, List, [], ◌∷◌, ◌++◌, All,
  All-append, append_assoc,
}
use buddy2api.History.{Json, joins, close_group, gather, history_segments, flatten}

flatten-close_group :
    (group : List Json) (segments : List (List Json))
    → flatten (close_group group segments) ≡ group ++ flatten segments
flatten-close_group [] segments = refl
flatten-close_group (j ∷ group) segments = refl

abbrev IsJoined : Json → Type 0
IsJoined j = joins j ≡ true

-- The items of a group of calls, results and reasoning; or one other item alone.
abbrev pub IsSegment : List Json → Type 0
IsSegment [] = ⊥
IsSegment (j ∷ js) = All (λ i. joins i ≡ true) (j ∷ js) ⊎ ((joins j ≡ false) × (js ≡ []))

-- A list of segments does not begin with a group.
abbrev pub StartsApart : List (List Json) → Type 0
StartsApart [] = Unit
StartsApart ([] ∷ segments) = ⊥
StartsApart ((j ∷ js) ∷ segments) = joins j ≡ false

-- Every segment is whole: no group is followed by another group.
abbrev pub IsGrouped : List (List Json) → Type 0
IsGrouped [] = Unit
IsGrouped (segment ∷ segments) =
    IsSegment segment
    × (All (λ i. joins i ≡ true) segment → StartsApart segments)
    × IsGrouped segments

close_group-IsGrouped :
    (group : List Json) (segments : List (List Json))
    → All (λ i. joins i ≡ true) group
    → StartsApart segments
    → IsGrouped segments
    → IsGrouped (close_group group segments)
close_group-IsGrouped [] segments h apart g = g
close_group-IsGrouped (j ∷ group) segments h apart g = (inl h, (λ k. apart), g)

gathered :
    (items group : List Json)
    → All (λ i. joins i ≡ true) group
    → (flatten (gather group items) ≡ group ++ items) × IsGrouped (gather group items)
unfolding gather
gathered [] group h = (flatten-close_group group [], close_group-IsGrouped group [] h tt tt)
gathered (j ∷ items) group h = at (joins j) refl (gathered items)
  where
    at :
        (b : Bool)
        → joins j ≡ b
        → ((g : List Json)
            → All (λ i. joins i ≡ true) g
            → (flatten (gather g items) ≡ g ++ items) × IsGrouped (gather g items))
        → let r : List (List Json) = elim b [
          | true ↦ gather (group ++ j ∷ []) items
          | false ↦ close_group group ((j ∷ []) ∷ gather [] items)
        ] in
          (flatten r ≡ group ++ j ∷ items) × IsGrouped r
    at true e rec =
        let (flat, grouped) =
          rec (group ++ j ∷ []) (All-append (λ i. joins i ≡ true) group (j ∷ []) h (e, tt)) in
        (flat ∙ append_assoc group (j ∷ []) items, grouped)
    at false e rec =
        let (flat, grouped) = rec [] tt in
        (
          flatten-close_group group ((j ∷ []) ∷ gather [] items) ∙ ap (λ l. group ++ j ∷ l) flat,
          close_group-IsGrouped group ((j ∷ []) ∷ gather [] items) h e
              (inr (e, refl), (λ k. absurd (true≢false (sym k.0 ∙ e))), grouped),
        )

-- The segments put together are the history, item by item; and each segment is one whole group of neighbouring calls, results and reasoning,
-- or one other item, so that a call and the result next to it never part.
pub history_segments-IsGrouped :
    (items : List Json)
    → (flatten (history_segments items) ≡ items) × IsGrouped (history_segments items)
unfolding history_segments
history_segments-IsGrouped items = gathered items [] tt
