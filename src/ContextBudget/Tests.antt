-- ===== src/ContextBudget/Tests.antt =====
-- The context policy at a concrete configuration.
use buddy2api.Prelude.{
  ◌≡◌, refl, true, false, Option, none, some, [], ◌∷◌, String, str_eq, if◌then◌else◌,
}
use buddy2api.Prelude.Int.{ℤ, pos}
use buddy2api.Prelude.Texts.{strip, lstrip, rstrip, split, partition}
use buddy2api.History.{
  Json, null, plain, str, arr, obj, Items, no_items, item, Fields, no_fields, field,
}
use buddy2api.ContextBudget.{
  Builtins, Config, asked, input_limit, pretrim_channels, read_table, commas,
}
use buddy2api.ContextBudget.Rejection.{
  is_context_rejection, starts_with, has_code, items_have, fields_have,
}
use buddy2api.ContextBudget.Policy.{json, stream, Send, guard_chunks, recover}
use buddy2api.ContextBudget.Guard.{SseText, chunk, sse_payloads, chunk_has_content}

-- The numbers that the tests read; `lower` where there are no capitals.
abbrev read : String → Option ℤ
read s =
    if str_eq s "20" then some (pos 20) else (if str_eq s "9000" then some (pos 9000) else none)

abbrev read_json : Json → Option ℤ
read_json (plain s) = read s
read_json (str s) = read s
read_json j = none

abbrev py : Builtins
py = record { to_int = read_json; lower = λ s. s }

abbrev cfg : Config
cfg = record {
  loomy = 160000;
  pretrim = "qoder = 20; loomy=1,bad=x";
  saved = λ c. none;
  everywhere = "9000";
}

budgets : pretrim_channels py cfg.pretrim ≡ ("bad", 0) ∷ ("loomy", 0) ∷ ("qoder", 20) ∷ []
unfolding pretrim_channels read_table commas split partition strip lstrip rstrip
budgets = refl

abbrev message : String → String → Json
message role text = obj (field "role" (str role) (field "content" (str text) no_fields))

abbrev items : Items
items = item (message "user" "hello hello hello hello hello") (item (message "user" "hi") no_items)

abbrev payload : Fields
payload = field "max_tokens" (plain "9000") (field "messages" (arr items) no_fields)

room : input_limit py payload 20000 ≡ 11000
unfolding input_limit asked
room = refl

abbrev detail : Json
detail = obj (
    field "error" (obj (field "code" (plain "11115") (field "message" (str "too long") no_fields)))
      no_fields)

rejected : is_context_rejection py 400 detail 10 ≡ true
unfolding is_context_rejection has_code items_have fields_have
rejected = refl

-- The texts of the tests have one line each, and "long" is the JSON of the rejection.
abbrev st : SseText
st = record {
  splitlines = λ s. s ∷ [];
  loads = λ s.
      if str_eq s "long"
      then some detail
      else (if str_eq s "fine" then some (obj no_fields) else none);
  render = λ n. "";
}

-- The first answer is a stream that begins with a rejection; one with content is handed on.
abbrev begins : Send
begins [] p = stream (chunk "data: long" ∷ chunk "more" ∷ [])
begins (q ∷ sent) p = json null

hands_on :
    recover py st begins false payload (stream (chunk "data: fine" ∷ chunk "more" ∷ []))
    ≡ (stream (chunk "data: fine" ∷ chunk "more" ∷ []), payload ∷ [])
unfolding recover guard_chunks sse_payloads chunk_has_content starts_with strip lstrip
hands_on = refl
