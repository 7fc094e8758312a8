-- ===== src/Responses/Replied.antt =====
-- responses.py, `chat_response_to_responses`: the status of a response, and the items that it has.
use buddy2api.Prelude.{
  ℕ, ◌≡◌, refl, sym, Bool, true, false, Option, none, some, List, [], ◌∷◌, if◌then◌else◌, ◌>>=◌,
  subst, String,
}
use buddy2api.History.{Json, Fields, get}
use buddy2api.Responses.{Python, completed, incomplete}
use buddy2api.Responses.Ending.{Terminal, error_of, is_nil, failed_with}
use buddy2api.Responses.Reading.{mapping, or_value}
use buddy2api.Responses.Items.{AreItems, shown_choices}
use buddy2api.Responses.Added.{add_choices-AreItems}
use buddy2api.Responses.Reasons.{ended_by, has_reason-ended_by}
use buddy2api.Responses.Reply.{
  Reply, has_reason, reply_outcome, reply_id, dicts_of, add_choices, finish_reasons, usage_of_reply,
  reply_of, finish_reply, chat_response_to_responses,
}

-- How the choices decide: an output that was cut off for its length comes first, then a filtered one, then an empty one.
pub data IsTold (choices : List Fields) : Terminal → List Fields → Type 0 where
  cut_off :
      (xs : List Fields)
      → ended_by "length" choices ≡ true
      → IsTold choices
          (record { status = incomplete; reason = some "max_output_tokens"; error = none })
          xs
  filtered :
      (xs : List Fields)
      → ended_by "length" choices ≡ false
      → ended_by "content_filter" choices ≡ true
      → IsTold choices
          (record { status = incomplete; reason = some "content_filter"; error = none })
          xs
  empty_reply :
      ended_by "length" choices ≡ false
      → ended_by "content_filter" choices ≡ false
      → IsTold choices
          (failed_with "empty_upstream_response"
            "The upstream response contained no displayable content or tool call.")
          []
  whole :
      (x : Fields) (xs : List Fields)
      → ended_by "length" choices ≡ false
      → ended_by "content_filter" choices ≡ false
      → IsTold choices (record { status = completed; reason = none; error = none }) (x ∷ xs)

reply_outcome-IsTold :
    (choices : List Fields) (reasons : List Json) (output : List Fields)
    → finish_reasons choices ≡ some reasons
    → IsTold choices (reply_outcome reasons output) output
unfolding reply_outcome
reply_outcome-IsTold choices reasons output h =
    told (has_reason "length" reasons) (has_reason "content_filter" reasons) output
      (sym (has_reason-ended_by "length" choices reasons refl h))
      (sym (has_reason-ended_by "content_filter" choices reasons refl h))
  where
    told :
        (a b : Bool) (out : List Fields)
        → ended_by "length" choices ≡ a
        → ended_by "content_filter" choices ≡ b
        → IsTold choices
            (if a
              then record { status = incomplete; reason = some "max_output_tokens"; error = none }
              else if b
              then record { status = incomplete; reason = some "content_filter"; error = none }
              else if is_nil out
              then failed_with "empty_upstream_response"
                  "The upstream response contained no displayable content or tool call."
              else record { status = completed; reason = none; error = none })
            out
    told true b out p q = cut_off out p
    told false true out p q = filtered out p q
    told false false [] p q = empty_reply p q
    told false false (x ∷ xs) p q = whole x xs p q

-- The items are those that the choices show, and the status, the details and the error are what the choices decide.
abbrev pub Replies : Python → List Fields → Reply → Type 0
Replies py choices r =
    AreItems (shown_choices py choices) r.output
    × ((out : Terminal) × IsTold choices out r.output
        × (r.status ≡ out.status)
        × (r.incomplete_details ≡ out.reason)
        × (r.error ≡ error_of out.error))

bind-some :
    {A B : Type 0} (P : B → Type 0) (o : Option A) (f : A → Option B) (b : B)
    → o >>= f ≡ some b
    → ((a : A) → o ≡ some a → f a ≡ some b → P b)
    → P b
bind-some P none f b h k = absurd (cc h)
bind-some P (some a) f b h k = k a refl h

module _ (py : Python) (now : ℕ) where
  reply_of-Replies :
      (chat_resp : Fields) (model : Json) (payload : Fields) (id : String) (choices : List Fields)
      (r : Reply)
      → reply_of py now chat_resp model payload id choices ≡ some r
      → Replies py choices r
  reply_of-Replies chat_resp model payload id choices r h =
      bind-some (Replies py choices) (add_choices py choices ([], 1)) _ r h (λ made e1 h1.
        bind-some (Replies py choices) (finish_reasons choices) _ r h1 (λ reasons e2 h2.
          bind-some (Replies py choices) (usage_of_reply py now (mapping (get "usage" chat_resp))) _
            r h2
            (λ usage e3 h3.
              subst (Replies py choices)
                {x = finish_reply py now id (or_value (get "model" chat_resp) model) payload reasons
                  made.0 usage}
                {y = r} (cc h3)
                (
                  add_choices-AreItems py choices 1 made e1,
                  (
                    reply_outcome reasons made.0,
                    reply_outcome-IsTold choices reasons made.0 e2,
                    refl,
                    refl,
                    refl,
                  ),
                ))))

  -- A chat reply that is translated gives a response whose items are what its choices show, one each and in order: a message's reasoning, its content where it is not the reasoning again, and its tool calls with their ids, names and arguments. It is incomplete for its length where a choice ended by it, else filtered where a choice ended by that, else failed with an error where it has no item, else completed.
  pub chat_response_to_responses-Replies :
      (chat_resp : Fields) (model : Json) (payload : Fields) (r : Reply)
      → chat_response_to_responses py now chat_resp model payload ≡ some r
      → (choices : List Fields) × (dicts_of (get "choices" chat_resp) ≡ some choices)
        × Replies py choices r
  unfolding chat_response_to_responses
  chat_response_to_responses-Replies chat_resp model payload r h =
      let P : Reply → Type 0 = λ r.
        (choices : List Fields) × (dicts_of (get "choices" chat_resp) ≡ some choices)
        × Replies py choices r in
      bind-some P (reply_id py now (get "id" chat_resp)) _ r h (λ id e1 h1.
        bind-some P (dicts_of (get "choices" chat_resp)) _ r h1 (λ choices e2 h2.
          (choices, e2, reply_of-Replies chat_resp model payload id choices r h2)))
