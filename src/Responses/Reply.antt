-- ===== src/Responses/Reply.antt =====
-- responses.py, `chat_response_to_responses`: a chat reply that is no stream as a response; `none` where the code raises.
use Prim.Native.String.{◌++◌ as ◌+++◌}
use buddy2api.Prelude.{
  ℕ, suc, Bool, false, not, ◌&&◌, ◌||◌, Option, none, some, List, [], ◌∷◌, ◌++◌, String, str_eq,
  if◌then◌else◌, ◌>>=◌,
}
use buddy2api.History.{
  Json, null, plain, str, arr, obj, no_items, item, Fields, no_fields, field, get, to_list,
  is_truthy,
}
use buddy2api.Responses.{Python, ItemStatus, completed, incomplete, StreamError}
use buddy2api.Responses.Reading.{or_value, mapping, value_of}
use buddy2api.Responses.Stream.{gen_item_id}
use buddy2api.Responses.Ending.{Terminal, failed_with, error_of, is_nil, responses_usage}
use buddy2api.Responses.Request.{get_default}

-- What the `for` loops of this function take: every element has to be a dict.
abbrev pub dicts : List Json → Option (List Fields)
dicts [] = some []
dicts (obj d ∷ js) = elim (dicts js) [ none ↦ none | some ds ↦ some (d ∷ ds) ]
dicts (_ ∷ js) = none

abbrev pub dicts_of : Option Json → Option (List Fields)
dicts_of (some (arr js)) = dicts (to_list js)
dicts_of j = if is_truthy j then none else some []

-- The items so far, and the calls of `os.urandom`.
abbrev pub Made : Type 0
Made = List Fields × ℕ

abbrev pub summary_item : String → Json → Fields
summary_item id t = field "type" (str "reasoning") (
    field "id" (str id) (
      field "status" (str "completed") (
        field "summary"
          (arr (item (obj (field "type" (str "summary_text") (field "text" t no_fields))) no_items))
          no_fields)))

abbrev pub text_item : String → Json → Fields
text_item id t = field "type" (str "message") (
    field "id" (str id) (
      field "role" (str "assistant") (
        field "status" (str "completed") (
          field "content"
            (arr (
              item
                (obj (
                  field "type" (str "output_text")
                    (field "text" t (field "annotations" (arr no_items) no_fields))))
                no_items))
            no_fields))))

abbrev pub tool_item : Json → Json → Fields → Fields
tool_item id call_id fn = field "type" (str "function_call") (
    field "id" id (
      field "call_id" call_id (
        field "name" (get_default "name" fn (str "")) (
          field "arguments" (get_default "arguments" fn (str ""))
            (field "status" (str "completed") no_fields)))))

module _ (py : Python) where
  abbrev pub add_reasoning : Option Json → Made → Made
  add_reasoning r (out, n) =
      if is_truthy r
      then (out ++ summary_item (gen_item_id py "rsn" n) (value_of r) ∷ [], suc n)
      else (out, n)

  -- `content != reasoning`, where the reasoning of a missing key is None
  abbrev pub same_value : Json → Json → Bool
  same_value (str a) (str b) = str_eq a b
  same_value a b = py.equal a b

  abbrev pub add_content : Option Json → Option Json → Made → Made
  add_content r t (out, n) =
      if is_truthy t && not (same_value (value_of t) (value_of r))
      then (out ++ text_item (gen_item_id py "msg" n) (value_of t) ∷ [], suc n)
      else (out, n)

  -- The two ids of a call without one are made apart.
  abbrev pub call_entry : Fields → Fields → ℕ → Fields × ℕ
  call_entry tc fn n =
      if is_truthy (get "id" tc)
      then (tool_item (value_of (get "id" tc)) (value_of (get "id" tc)) fn, n)
      else (
        tool_item (str (gen_item_id py "fc" n)) (str (gen_item_id py "fc" (suc n))) fn,
        suc (suc n),
      )

  unfoldable pub add_calls : List Fields → Made → Option Made
  add_calls [] made = some made
  add_calls (tc ∷ tcs) (out, n) = elim (mapping (get "function" tc)) [
    | none ↦ none
    | some fn ↦ let (entry, m) = call_entry tc fn n in add_calls tcs (out ++ entry ∷ [], m)
  ]

  abbrev pub add_all_calls : Option (List Fields) → Made → Option Made
  add_all_calls none made = none
  add_all_calls (some tcs) made = add_calls tcs made

  abbrev pub add_reply_message : Option Fields → Made → Option Made
  add_reply_message none made = none
  add_reply_message (some msg) made =
      let r = get "reasoning_content" msg in
      add_all_calls (dicts_of (get "tool_calls" msg))
        (add_content r (get "content" msg) (add_reasoning r made))

  unfoldable pub add_choices : List Fields → Made → Option Made
  unfolding add_calls
  add_choices [] made = some made
  add_choices (choice ∷ rest) made =
      elim (add_reply_message (mapping (get "message" choice)) made) [
        | none ↦ none
        | some made' ↦ add_choices rest made'
      ]

-- `finish_reasons`; a list or a dict has no place in a set.
abbrev pub add_reason : Option Json → Option (List Json) → Option (List Json)
add_reason r none = none
add_reason (some (arr js)) (some rs) = if is_truthy (some (arr js)) then none else some rs
add_reason (some (obj d)) (some rs) = if is_truthy (some (obj d)) then none else some rs
add_reason r (some rs) = if is_truthy r then some (value_of r ∷ rs) else some rs

abbrev pub finish_reasons : List Fields → Option (List Json)
finish_reasons [] = some []
finish_reasons (choice ∷ rest) = add_reason (get "finish_reason" choice) (finish_reasons rest)

abbrev pub has_reason : String → List Json → Bool
has_reason word [] = false
has_reason word (str s ∷ rs) = str_eq s word || has_reason word rs
has_reason word (_ ∷ rs) = has_reason word rs

unfoldable pub reply_outcome : List Json → List Fields → Terminal
reply_outcome reasons output =
    if has_reason "length" reasons
    then record { status = incomplete; reason = some "max_output_tokens"; error = none }
    else if has_reason "content_filter" reasons
    then record { status = incomplete; reason = some "content_filter"; error = none }
    else if is_nil output
    then failed_with "empty_upstream_response"
        "The upstream response contained no displayable content or tool call."
    else record { status = completed; reason = none; error = none }

pub record Reply : Type 0 where
  pub id : String
  pub created_at : ℕ
  pub status : ItemStatus
  pub model : Json
  pub output : List Fields
  pub error : Option StreamError
  pub incomplete_details : Option String
  pub usage : Fields
  pub request_fields : Fields

-- `_response_request_fields`
abbrev pub is_bool : Option Json → Bool
is_bool (some (plain s)) = str_eq s "True" || str_eq s "False"
is_bool _ = false

abbrev pub list_or_empty : Option Json → Json
list_or_empty (some (arr js)) = arr js
list_or_empty _ = arr no_items

abbrev pub choice_or_auto : Option Json → Json
choice_or_auto none = str "auto"
choice_or_auto (some null) = str "auto"
choice_or_auto (some j) = j

unfoldable pub response_request_fields : Fields → Fields
response_request_fields payload =
    let parallel = get "parallel_tool_calls" payload in
    field "parallel_tool_calls" (if is_bool parallel then value_of parallel else plain "True") (
      field "tool_choice" (choice_or_auto (get "tool_choice" payload))
        (field "tools" (list_or_empty (get "tools" payload)) no_fields))

module _ (py : Python) (now : ℕ) where
  -- `"resp_" + chat_resp.get("id", ...)` raises for an id that is no text.
  abbrev pub reply_id : Option Json → Option String
  reply_id none = some ("resp_" +++ py.urandom 0)
  reply_id (some (str s)) = some ("resp_" +++ s)
  reply_id (some _) = none

  abbrev pub usage_of_reply : Option Fields → Option Fields
  usage_of_reply none = none
  usage_of_reply (some usage) = responses_usage py usage

  abbrev pub finish_reply : String → Json → Fields → List Json → List Fields → Fields → Reply
  finish_reply id model payload reasons output usage =
      let out = reply_outcome reasons output in
      record {
        id = id;
        created_at = now;
        status = out.status;
        model = model;
        output = output;
        error = error_of out.error;
        incomplete_details = out.reason;
        usage = usage;
        request_fields = response_request_fields payload;
      }

  abbrev pub reply_of : Fields → Json → Fields → String → List Fields → Option Reply
  reply_of chat_resp model payload id choices = do
    let (output, n) = (← add_choices py choices ([], 1))
    let reasons = (← finish_reasons choices)
    let usage = (← usage_of_reply (mapping (get "usage" chat_resp)))
    some (finish_reply id (or_value (get "model" chat_resp) model) payload reasons output usage)

  unfoldable pub chat_response_to_responses : Fields → Json → Fields → Option Reply
  unfolding add_choices reply_outcome response_request_fields
  chat_response_to_responses chat_resp model payload = do
    let id = (← reply_id (get "id" chat_resp))
    let choices = (← dicts_of (get "choices" chat_resp))
    reply_of chat_resp model payload id choices
