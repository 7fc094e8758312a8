-- ===== src/Responses/Tests.antt =====
-- Runs of the translation on small streams, and the theorems at them.
use buddy2api.Prelude.{
  ◌≡◌, refl, false, Option, none, some, List, [], ◌∷◌, map, String, str_eq, if◌then◌else◌,
}
use buddy2api.History.{Json, null, plain, str, arr, obj, no_items, item, Fields, no_fields, field}
use buddy2api.Responses.{Python, ItemStatus, completed, failed, ItemState}
use buddy2api.Prelude.Texts.{strip}
use buddy2api.Responses.Stream.{
  Output, append_text, say_reasoning, say_text, rename, add_call, before_call,
}
use buddy2api.Responses.Chunks.{Upstream, line, take_stream}
use buddy2api.Responses.Reading.{grow_name}
use buddy2api.Responses.Ending.{Setup, outcome, responses_usage, chat_stream_to_responses_stream}
use buddy2api.Responses.Complete.{
  IsComplete, IsCut, last_session, chat_stream_to_responses_stream-IsComplete,
  chat_stream_to_responses_stream-IsCut,
}
use buddy2api.Responses.Verdict.{IsWhole, outcome-IsWhole}

abbrev delta_chunk : Fields → Option String → Json
delta_chunk d none =
    obj (field "choices" (arr (item (obj (field "delta" (obj d) no_fields)) no_items)) no_fields)
delta_chunk d (some reason) = obj (
    field "choices"
      (arr (
        item (obj (field "delta" (obj d) (field "finish_reason" (str reason) no_fields))) no_items))
      no_fields)

abbrev call_chunk : String → Json
call_chunk args =
    delta_chunk
      (field "tool_calls"
        (arr (
          item
            (obj (
              field "id" (str "c1") (
                field "function"
                  (obj (field "name" (str "look") (field "arguments" (str args) no_fields)))
                  no_fields)))
            no_items))
        no_fields)
      none

-- A parser of the chunks of the tests by their names.
abbrev loads : String → Option Json
loads s =
    if str_eq s "think"
    then some (delta_chunk (field "reasoning_content" (str "hm") no_fields) none)
    else if str_eq s "say"
    then some (delta_chunk (field "content" (str "hi") no_fields) none)
    else if str_eq s "call"
    then some (call_chunk "{")
    else if str_eq s "more"
    then some (call_chunk "}")
    else if str_eq s "{}"
    then some (obj no_fields)
    else if str_eq s "stop"
    then some (delta_chunk no_fields (some "stop"))
    else if str_eq s "null_usage"
    then some (obj (field "usage" (obj (field "prompt_tokens" null no_fields)) no_fields))
    else none

abbrev sum : Json → Json → Option Json
sum (plain a) (plain b) = some (plain a)
sum a b = none

abbrev pub py : Python
py = record {
  loads = loads;
  dumps = λ j. "";
  dumps_ascii = λ j. "";
  str_of = λ j. "";
  int = λ j. none;
  add = sum;
  equal = λ a b. false;
  pairs = λ j. none;
  message = λ s j. s;
  urandom = λ n. "0";
}

abbrev setup : Setup
setup = record { id = "resp_0"; created_at = 0; model = str "m"; request_fields = no_fields }

abbrev full : List Upstream
full =
    line "think"
    ∷ line "say"
    ∷ line "say"
    ∷ line "call"
    ∷ line "more"
    ∷ line "stop"
    ∷ line "[DONE]"
    ∷ []

abbrev final_items : Output → List (String × ItemStatus)
final_items o = map (λ (s : ItemState). (s.item.text, s.item.status)) o.item_states

run_full :
    final_items (chat_stream_to_responses_stream py setup full)
    ≡ ("hm", completed) ∷ ("hihi", completed) ∷ ("{}", completed) ∷ []
unfolding chat_stream_to_responses_stream take_stream strip say_reasoning say_text rename add_call
    before_call grow_name
run_full = refl

abbrev zero_usage : Fields
zero_usage = field "input_tokens" (plain "0") (
    field "input_tokens_details" (obj (field "cached_tokens" (plain "0") no_fields)) (
      field "output_tokens" (plain "0") (
        field "output_tokens_details" (obj (field "reasoning_tokens" (plain "0") no_fields))
          (field "total_tokens" (plain "0") no_fields))))

usage_full : responses_usage py (last_session py setup full).usage ≡ some zero_usage
unfolding responses_usage take_stream strip say_reasoning say_text rename add_call before_call
    grow_name
usage_full = refl

chat_stream_to_responses_stream-IsComplete_example :
    IsComplete
      (outcome py (last_session py setup full))
      (chat_stream_to_responses_stream py setup full)
chat_stream_to_responses_stream-IsComplete_example =
    chat_stream_to_responses_stream-IsComplete py setup full zero_usage usage_full

abbrev uncounted : List Upstream
uncounted = line "say" ∷ line "null_usage" ∷ line "[DONE]" ∷ []

usage_uncounted : responses_usage py (last_session py setup uncounted).usage ≡ none
unfolding responses_usage take_stream strip say_text
usage_uncounted = refl

chat_stream_to_responses_stream-IsCut_example :
    IsCut (chat_stream_to_responses_stream py setup uncounted)
chat_stream_to_responses_stream-IsCut_example =
    chat_stream_to_responses_stream-IsCut py setup uncounted usage_uncounted

full_completes : (outcome py (last_session py setup full)).status ≡ completed
unfolding outcome take_stream strip say_reasoning say_text rename add_call before_call grow_name
full_completes = refl

outcome-IsWhole_example : IsWhole py (last_session py setup full)
outcome-IsWhole_example = outcome-IsWhole py (last_session py setup full) full_completes

-- A stream that stops while a call's arguments are incomplete.
abbrev half : List Upstream
half = line "call" ∷ line "stop" ∷ []

half_fails : (outcome py (last_session py setup half)).status ≡ failed
unfolding outcome take_stream strip append_text add_call before_call rename grow_name
half_fails = refl
