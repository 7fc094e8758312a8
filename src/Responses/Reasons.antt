-- ===== src/Responses/Reasons.antt =====
-- responses.py, `chat_response_to_responses`: the set of the reasons for which the choices ended.
use Prim.Native.String.{[] as empty, ◌∷◌ as ◌◁◌}
use buddy2api.Prelude.{
  ◌≡◌, refl, ap, ◌∙◌, Bool, true, false, not, ◌||◌, Option, none, some, List, [], ◌∷◌, String,
  str_eq, if◌then◌else◌,
}
use buddy2api.History.{
  Json, null, plain, str, arr, obj, no_items, item, Fields, no_fields, field, get, is_text,
  is_zero_text,
}
use buddy2api.Responses.Reply.{add_reason, finish_reasons, has_reason}

-- Whether a choice says that it was ended for this reason.
abbrev pub ended_by : String → List Fields → Bool
ended_by word [] = false
ended_by word (choice ∷ rest) = is_text (get "finish_reason" choice) word || ended_by word rest

has_reason-ended_by_one :
    (word : String) (j : Option Json) (rs rs' : List Json)
    → str_eq "" word ≡ false
    → add_reason j (some rs) ≡ some rs'
    → has_reason word rs' ≡ (is_text j word || has_reason word rs)
has_reason-ended_by_one word none rs rs' e h = ap (has_reason word) {x = rs'} {y = rs} (cc h)
has_reason-ended_by_one word (some null) rs rs' e h = ap (has_reason word) {x = rs'} {y = rs} (cc h)
has_reason-ended_by_one word (some (plain s)) rs rs' e h = choose (not (is_zero_text s)) h
  where
    choose :
        (b : Bool)
        → (if b then some (plain s ∷ rs) else some rs) ≡ some rs'
        → has_reason word rs' ≡ has_reason word rs
    choose true k = ap (has_reason word) {x = rs'} {y = plain s ∷ rs} (cc k)
    choose false k = ap (has_reason word) {x = rs'} {y = rs} (cc k)
has_reason-ended_by_one word (some (str empty)) rs rs' e h =
    rw e (ap (has_reason word) {x = rs'} {y = rs} (cc h))
has_reason-ended_by_one word (some (str (c ◁ s))) rs rs' e h =
    ap (has_reason word) {x = rs'} {y = str (c ◁ s) ∷ rs} (cc h)
has_reason-ended_by_one word (some (arr no_items)) rs rs' e h =
    ap (has_reason word) {x = rs'} {y = rs} (cc h)
has_reason-ended_by_one word (some (arr (item j js))) rs rs' e h = absurd (cc h)
has_reason-ended_by_one word (some (obj no_fields)) rs rs' e h =
    ap (has_reason word) {x = rs'} {y = rs} (cc h)
has_reason-ended_by_one word (some (obj (field k j d))) rs rs' e h = absurd (cc h)

pub has_reason-ended_by :
    (word : String) (choices : List Fields) (rs : List Json)
    → str_eq "" word ≡ false
    → finish_reasons choices ≡ some rs
    → has_reason word rs ≡ ended_by word choices
has_reason-ended_by word [] rs e h = ap (has_reason word) {x = rs} {y = []} (cc h)
has_reason-ended_by word (choice ∷ rest) rs e h =
    after (λ before p. has_reason-ended_by word rest before e p) (finish_reasons rest) refl h
  where
    after :
        ((before : List Json)
          → finish_reasons rest ≡ some before
          → has_reason word before ≡ ended_by word rest)
        → (o : Option (List Json)) → finish_reasons rest ≡ o
        → add_reason (get "finish_reason" choice) o ≡ some rs
        → has_reason word rs ≡ ended_by word (choice ∷ rest)
    after rec none p k = absurd (cc k)
    after rec (some before) p k =
        has_reason-ended_by_one word (get "finish_reason" choice) before rs e k
        ∙ ap (λ b. is_text (get "finish_reason" choice) word || b) (rec before p)
