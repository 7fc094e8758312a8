-- ===== src/Responses/Added.antt =====
-- responses.py, `chat_response_to_responses`: the loop over the choices adds the items that they show.
use buddy2api.Prelude.{
  ℕ, ◌≡◌, refl, ap, ◌∙◌, sym, subst, not, ◌&&◌, inl, inr, Bool-cases, Option, none, some, List, [],
  ◌∷◌, ◌++◌, map, append_assoc, append-nil, if◌then◌else◌,
}
use buddy2api.History.{Json, Fields, get, is_truthy}
use buddy2api.Responses.{Python}
use buddy2api.Responses.Reading.{mapping, value_of}
use buddy2api.Responses.Reply.{
  dicts_of, Made, add_reasoning, add_content, same_value, call_entry, add_calls, add_all_calls,
  add_reply_message, add_choices,
}
use buddy2api.Responses.Items.{
  Shown, thought, said, IsItem, AreItems, AreItems-append, fields_or_none, list_or_none, shown_call,
  shown_texts, shown_message, shown_choices,
}

-- One state of the loop comes from another by items that show these things.
abbrev Adds : List Shown → Made → Made → Type 0
Adds ss before after = (ds : List Fields) × (after.0 ≡ before.0 ++ ds) × AreItems ss ds

Adds-nothing : (made : Made) → Adds [] made made
Adds-nothing made = ([], sym (append-nil made.0), tt)

Adds-then : (ss ts : List Shown) (a b c : Made) → Adds ss a b → Adds ts b c → Adds (ss ++ ts) a c
Adds-then ss ts a b c (ds, e, h) (es, f, k) =
    (ds ++ es, f ∙ ap (λ l. l ++ es) e ∙ append_assoc a.0 ds es, AreItems-append ss ts ds es h k)

module _ (py : Python) where
  add_reasoning-Adds :
      (r : Option Json) (made : Made)
      → Adds (if is_truthy r then thought (value_of r) ∷ [] else []) made (add_reasoning py r made)
  add_reasoning-Adds r made = elim (Bool-cases (is_truthy r)) [
    | inl t ↦ rw t (_, refl, ((refl, refl), tt))
    | inr f ↦ rw f (Adds-nothing made)
  ]

  add_content-Adds :
      (r t : Option Json) (made : Made)
      → Adds
          (if is_truthy t && not (same_value py (value_of t) (value_of r))
            then said (value_of t) ∷ []
            else [])
          made
          (add_content py r t made)
  add_content-Adds r t made =
      elim (Bool-cases (is_truthy t && not (same_value py (value_of t) (value_of r)))) [
        | inl h ↦ rw h (_, refl, ((refl, refl), tt))
        | inr f ↦ rw f (Adds-nothing made)
      ]

  call_entry-IsItem :
      (tc fn : Fields) (n : ℕ)
      → mapping (get "function" tc) ≡ some fn
      → IsItem (shown_call tc) (call_entry py tc fn n).0
  call_entry-IsItem tc fn n p = elim (Bool-cases (is_truthy (get "id" tc))) [
    | inl t ↦ rw (t, p) (refl, (refl, refl), refl, refl)
    | inr f ↦ rw (f, p) (refl, tt, refl, refl)
  ]

  add_calls-Adds :
      (tcs : List Fields) (made after : Made)
      → add_calls py tcs made ≡ some after
      → Adds (map shown_call tcs) made after
  unfolding add_calls
  add_calls-Adds [] made after h =
      subst (Adds [] made) {x = made} {y = after} (cc h) (Adds-nothing made)
  add_calls-Adds (tc ∷ tcs) (out, n) after h =
      with_function (add_calls-Adds tcs) (mapping (get "function" tc)) refl h
    where
      with_function :
          ((m c : Made) → add_calls py tcs m ≡ some c → Adds (map shown_call tcs) m c)
          → (o : Option Fields) → mapping (get "function" tc) ≡ o
          → (elim o [
            | none ↦ none
            | some fn ↦
                let (entry, m) = call_entry py tc fn n in add_calls py tcs (out ++ entry ∷ [], m)
          ])
            ≡ some after
          → Adds (map shown_call (tc ∷ tcs)) (out, n) after
      with_function rec none p k = absurd (cc k)
      with_function rec (some fn) p k =
          let (entry, m) = call_entry py tc fn n in
          Adds-then (shown_call tc ∷ []) (map shown_call tcs) (out, n) (out ++ entry ∷ [], m) after
            (entry ∷ [], refl, (call_entry-IsItem tc fn n p, tt))
            (rec (out ++ entry ∷ [], m) after k)

  add_reply_message-Adds :
      (o : Option Fields) (made after : Made)
      → add_reply_message py o made ≡ some after
      → Adds (shown_message py (fields_or_none o)) made after
  add_reply_message-Adds none made after h = absurd (cc h)
  add_reply_message-Adds (some msg) made after h = with_calls (dicts_of (get "tool_calls" msg)) h
    where
      r : Option Json
      r = get "reasoning_content" msg

      t : Option Json
      t = get "content" msg

      texts : Made
      texts = add_content py r t (add_reasoning py r made)

      with_calls :
          (o : Option (List Fields))
          → add_all_calls py o texts ≡ some after
          → Adds (shown_texts py r t ++ map shown_call (list_or_none o)) made after
      with_calls none k = absurd (cc k)
      with_calls (some tcs) k =
          Adds-then (shown_texts py r t) (map shown_call tcs) made texts after
            (Adds-then _ _ made (add_reasoning py r made) texts (add_reasoning-Adds r made)
              (add_content-Adds r t (add_reasoning py r made)))
            (add_calls-Adds tcs texts after k)

  add_choices-Adds :
      (choices : List Fields) (made after : Made)
      → add_choices py choices made ≡ some after
      → Adds (shown_choices py choices) made after
  unfolding add_choices
  add_choices-Adds [] made after h =
      subst (Adds [] made) {x = made} {y = after} (cc h) (Adds-nothing made)
  add_choices-Adds (choice ∷ rest) made after h =
      with_message (add_choices-Adds rest)
        (add_reply_message py (mapping (get "message" choice)) made) refl h
    where
      with_message :
          ((m c : Made) → add_choices py rest m ≡ some c → Adds (shown_choices py rest) m c)
          → (o : Option Made) → add_reply_message py (mapping (get "message" choice)) made ≡ o
          → (elim o [ none ↦ none | some made' ↦ add_choices py rest made' ]) ≡ some after
          → Adds (shown_choices py (choice ∷ rest)) made after
      with_message rec none p k = absurd (cc k)
      with_message rec (some mid) p k =
          Adds-then (shown_message py (fields_or_none (mapping (get "message" choice))))
            (shown_choices py rest) made mid after
            (add_reply_message-Adds (mapping (get "message" choice)) made mid p) (rec mid after k)

  pub add_choices-AreItems :
      (choices : List Fields) (n : ℕ) (after : Made)
      → add_choices py choices ([], n) ≡ some after
      → AreItems (shown_choices py choices) after.0
  add_choices-AreItems choices n after h =
      let (ds, e, k) = add_choices-Adds choices ([], n) after h in
      subst (AreItems (shown_choices py choices)) (sym e) k
