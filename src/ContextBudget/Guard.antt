-- ===== src/ContextBudget/Guard.antt =====
-- context_budget.py, `_sse_payloads` and `_chunk_has_content`: what the first chunks of a stream say.
-- `str.splitlines`, `json.loads` and the text of an error event are arguments.
use Prim.Native.String.{[] as empty, ◌∷◌ as ◌◁◌}
use buddy2api.Prelude.{
  ℕ, zero, suc, Bool, false, not, ◌&&◌, ◌||◌, Option, none, some, List, [], ◌∷◌, String, str_eq,
  if◌then◌else◌,
}
use buddy2api.Prelude.Texts.{strip, lstrip, is_empty}
use buddy2api.History.{Json, str, obj, Fields, no_fields, field, get, is_truthy}
use buddy2api.Responses.Reading.{has_key}
use buddy2api.ContextBudget.{Builtins}
use buddy2api.ContextBudget.Rejection.{starts_with, prefix, looks_html}

-- The details of an error that `_error_sse` turns into an event.
pub data Notice : Type 0 where
  of_error : Fields → Notice
  of_too_long : Bool → Notice
  of_html : ℕ → Notice
  exceeded not_a_stream : Notice

pub data Piece : Type 0 where
  chunk : String → Piece
  event : Notice → Piece

pub record SseText : Type 0 where
  pub splitlines : String → List String
  -- `none` is a JSONDecodeError
  pub loads : String → Option Json
  pub render : Notice → String

abbrev pub drop_text : ℕ → String → String
drop_text zero s = s
drop_text (suc n) empty = empty
drop_text (suc n) (c ◁ s) = drop_text n s

abbrev pub html_payload : String → Fields
html_payload data_text =
    field "error"
      (obj (
        field "message" (str (prefix 400 data_text))
          (field "code" (str "upstream_html") no_fields)))
      no_fields

module _ (py : Builtins) (st : SseText) where
  -- `_chunk_text`, whose text is the chunk here
  abbrev pub chunk_text : Piece → String
  chunk_text (chunk s) = s
  chunk_text (event n) = st.render n

  abbrev pub add_payload : String → Option Json → List Fields → List Fields
  add_payload data_text (some (obj d)) found = d ∷ found
  add_payload data_text (some _) found = found
  add_payload data_text none found =
      if looks_html py data_text then html_payload data_text ∷ found else found

  abbrev pub add_line : String → List Fields → List Fields
  add_line line found =
      let data_text = strip (drop_text 5 line) in
      if not (starts_with "data:" line)
      then found
      else if is_empty data_text || str_eq data_text "[DONE]"
      then found
      else add_payload data_text (st.loads data_text) found

  abbrev pub payloads_of : List String → List Fields
  payloads_of [] = []
  payloads_of (line ∷ lines) = add_line line (payloads_of lines)

  unfoldable pub sse_payloads : String → List Fields
  unfolding looks_html
  sse_payloads text = payloads_of (st.splitlines text)

  abbrev pub any_content : List Fields → Bool
  any_content [] = false
  any_content (d ∷ ds) =
      not (has_key "error" d && not (is_truthy (get "choices" d))) || any_content ds

  unfoldable pub chunk_has_content : String → Bool
  unfolding sse_payloads looks_html starts_with
  chunk_has_content text =
      any_content (sse_payloads text)
      || (not (is_empty text)
          && (not (starts_with "data:" (lstrip text)) && not (looks_html py text)))

-- `payloads and all("error" in item for item in payloads)`, with the last of them.
abbrev pub only_errors : List Fields → Option Fields
only_errors [] = none
only_errors (d ∷ []) = if has_key "error" d then some d else none
only_errors (d ∷ e ∷ ds) =
    let rest = only_errors (e ∷ ds) in if has_key "error" d then rest else none
