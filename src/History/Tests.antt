-- ===== src/History/Tests.antt =====
-- The cut of a small history.
use buddy2api.Prelude.{◌≡◌, refl, some, [], ◌∷◌, String, map, length}
use buddy2api.History.{
  Json, str, arr, obj, Items, no_items, item, Fields, no_fields, field, count_chars,
  estimate_text_tokens, estimate_fields, to_list, gather, history_segments, flatten, drop_first,
  drop_segment, trim_segments, trim_history, trim_codex_prompt,
}
use buddy2api.History.Segments.{IsGrouped, history_segments-IsGrouped}
use buddy2api.History.Kept.{IsCut, trim_history-IsCut}
use buddy2api.History.Budget.{Judged, trim_codex_prompt-Judged}

abbrev message : String → String → Json
message role text = obj (field "role" (str role) (field "content" (str text) no_fields))

abbrev call : Json
call = obj (field "type" (str "function_call") (field "name" (str "ls") no_fields))

abbrev output : Json
output = obj (field "type" (str "function_call_output") (field "output" (str "a b") no_fields))

abbrev items : Items
items = item (message "system" "rules") (
    item (message "user" "hello hello hello")
      (item call (item output (item (message "user" "好吗") no_items))))

abbrev payload : Fields
payload = field "model" (str "m") (field "input" (arr items) no_fields)

text_tokens : estimate_text_tokens "好吗 hello" ≡ 4
unfolding estimate_text_tokens count_chars
text_tokens = refl

segments : map (λ s. length s) (history_segments (to_list items)) ≡ 1 ∷ 1 ∷ 2 ∷ 1 ∷ []
unfolding history_segments gather
segments = refl

-- The user's first message and the tool call go, the rules stay.
cut_items : trim_history payload "input" (to_list items) 20 ≡ (
  field "model" (str "m") (
      field "input"
        (arr (item (message "system" "rules") (item (message "user" "好吗") no_items)))
        no_fields),
  (message "system" "rules" ∷ []) ∷ (message "user" "好吗" ∷ []) ∷ [],
)
unfolding trim_history trim_segments history_segments gather drop_segment drop_first
    estimate_text_tokens count_chars estimate_fields
cut_items = refl

history_segments-IsGrouped_example :
    (flatten (history_segments (to_list items)) ≡ to_list items)
    × IsGrouped (history_segments (to_list items))
history_segments-IsGrouped_example = history_segments-IsGrouped (to_list items)

trim_history-IsCut_example :
    IsCut "input" 20 payload
      (history_segments (to_list items))
      (trim_history payload "input" (to_list items) 20)
trim_history-IsCut_example = trim_history-IsCut "input" 20 payload items refl

trim_codex_prompt-Judged_example :
    Judged payload items (some 32788) (trim_codex_prompt payload (some 32788))
trim_codex_prompt-Judged_example = trim_codex_prompt-Judged payload items (some 32788) refl
