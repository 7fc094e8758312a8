-- ===== src/Responses/Request.antt =====
-- responses.py, `responses_to_chat`: a request of the Responses API as a chat request.
-- `invalid` has the text of an InvalidReasoningControl, or of a TypeError where the tools are no list.
use Prim.Native.String.{◌++◌ as ◌+++◌}
use buddy2api.Prelude.{
  Bool, true, false, ◌&&◌, ◌||◌, Option, none, some, List, [], ◌∷◌, ◌++◌, map, String, str_eq,
  if◌then◌else◌,
}
use buddy2api.Prelude.Texts.{strip, is_empty}
use buddy2api.History.{
  Json, null, plain, str, arr, obj, Items, no_items, item, Fields, no_fields, field, get, to_list,
  of_list, is_text, is_truthy, first_of,
}
use buddy2api.ContextBudget.Rejection.{join_lines}
use buddy2api.Responses.{Python}
use buddy2api.Responses.Reading.{or_value, elements, value_of, as_text, assign}
use buddy2api.ReasoningControls.{Checked, invalid, valid}
use buddy2api.ReasoningControls.Normalized.{normalize_chat_reasoning, is_there}

-- `d.get(key, default)`
abbrev pub get_default : String → Fields → Json → Json
get_default key d default = elim (get key d) [ none ↦ default | some j ↦ j ]

abbrev pub fields_of : Option Json → Fields
fields_of (some (obj d)) = d
fields_of _ = no_fields

-- `_structured_response_format`
abbrev pub optional : String → Option Json → Fields
optional key j = if is_there j then field key (value_of j) no_fields else no_fields

abbrev pub append_fields : Fields → Fields → Fields
append_fields no_fields d = d
append_fields (field k j c) d = field k j (append_fields c d)

-- `nested.get(key, fmt.get(key))`
abbrev pub get_either : String → Fields → Fields → Option Json
get_either key nested fmt = first_of (get key nested) (get key fmt)

abbrev pub strict_of : Option Json → Fields
strict_of none = no_fields
strict_of (some j) = field "strict" j no_fields

abbrev pub schema_object : Fields → Fields → Fields
schema_object nested fmt =
    field "name" (or_value (get "name" nested) (or_value (get "name" fmt) (str "response"))) (
      field "schema" (obj (fields_of (get_either "schema" nested fmt))) (
        append_fields (optional "description" (get_either "description" nested fmt))
          (strict_of (get_either "strict" nested fmt))))

unfoldable pub format_of : Fields → Option Fields
format_of fmt =
    if is_text (get "type" fmt) "json_object"
    then some (field "type" (str "json_object") no_fields)
    else if is_text (get "type" fmt) "json_schema"
    then some (
        field "type" (str "json_schema") (
          field "json_schema" (obj (schema_object (fields_of (get "json_schema" fmt)) fmt))
            no_fields))
    else none

-- Without an object at `text` or at `format` there is no type to read.
unfoldable pub structured_response_format : Fields → Option Fields
unfolding format_of
structured_response_format payload =
    format_of (fields_of (get "format" (fields_of (get "text" payload))))

module _ (py : Python) where
  -- `_structured_output_instruction`, for a format that `_structured_response_format` made.
  abbrev pub schema_line : Fields → List String
  schema_line no_fields = []
  schema_line (field k j d) = ("Schema: " +++ py.dumps (obj (field k j d))) ∷ []

  unfoldable pub structured_output_instruction : Fields → Option String
  unfolding join_lines
  structured_output_instruction fmt =
      if is_text (get "type" fmt) "json_object"
      then some
          "Respond with a single JSON object only. Do not include markdown, commentary, or code fences."
      else if is_text (get "type" fmt) "json_schema"
      then some (
          join_lines (
            "Respond with a single JSON object that matches the required schema. Do not include markdown, commentary, or code fences."
            ∷ schema_line (fields_of (get "schema" (fields_of (get "json_schema" fmt))))))
      else none

  -- `_flatten_content`
  abbrev pub url_text : Json → String
  url_text (obj d) = as_text py (get_default "url" d (str ""))
  url_text j = as_text py j

  abbrev pub text_types : List String
  text_types = "input_text" ∷ "output_text" ∷ "text" ∷ []

  abbrev pub is_type : Fields → List String → Bool
  is_type p [] = false
  is_type p (t ∷ ts) = is_text (get "type" p) t || is_type p ts

  abbrev pub part_text : Fields → String
  part_text p =
      if is_type p text_types
      then as_text py (get_default "text" p (str ""))
      else if is_type p ("image_url" ∷ "input_image" ∷ [])
      then "[image: " +++ (url_text (get_default "image_url" p (str "")) +++ "]")
      else if is_type p ("file" ∷ [])
      then "[file]"
      else as_text py (get_default "text" p (obj p))

  abbrev pub parts_text : List Json → List String
  parts_text [] = []
  parts_text (str s ∷ js) = s ∷ parts_text js
  parts_text (obj p ∷ js) = part_text p ∷ parts_text js
  parts_text (_ ∷ js) = parts_text js

  unfoldable pub flatten_content : Option Json → String
  unfolding join_lines
  flatten_content none = ""
  flatten_content (some null) = ""
  flatten_content (some (str s)) = s
  flatten_content (some (arr js)) = join_lines (parts_text (to_list js))
  flatten_content (some (obj d)) = as_text py (get_default "text" d (str (py.str_of (obj d))))
  flatten_content (some (plain s)) = s

  -- `_input_item_to_chat_message`
  abbrev pub no_developer : Json → Json
  no_developer (str s) = if str_eq s "developer" then str "system" else str s
  no_developer j = j

  abbrev pub message_item : Fields → Fields
  message_item d = field "role" (no_developer (get_default "role" d (str "user"))) (
      field "content" (str (flatten_content (get "content" d))) (
        if is_truthy (get "name" d)
        then field "name" (value_of (get "name" d)) no_fields
        else no_fields))

  abbrev pub output_text : Json → String
  output_text (obj d) = py.dumps_ascii (obj d)
  output_text j = as_text py j

  abbrev pub output_item : Fields → Fields
  output_item d = field "role" (str "tool") (
      field "tool_call_id" (get_default "call_id" d (str ""))
        (field "content" (str (output_text (get_default "output" d (str "")))) no_fields))

  abbrev pub assistant_calls : Items → Fields
  assistant_calls calls =
      field "role" (str "assistant")
        (field "content" null (field "tool_calls" (arr calls) no_fields))

  abbrev pub call_item : Fields → Fields
  call_item d =
      let fn : Fields =
        field "name" (get_default "name" d (str ""))
          (field "arguments" (str (output_text (get_default "arguments" d (str "")))) no_fields) in
      assistant_calls (
        item
          (obj (
            field "id" (get_default "call_id" d (get_default "id" d (str "")))
              (field "type" (str "function") (field "function" (obj fn) no_fields))))
          no_items)

  abbrev pub user_message : String → Fields
  user_message content = field "role" (str "user") (field "content" (str content) no_fields)

  abbrev pub other_item : Fields → Option Fields
  other_item d =
      let content = flatten_content (get "content" d) in
      if is_empty content then none else some (user_message content)

  unfoldable pub input_item_to_chat_message : Json → Option Fields
  unfolding flatten_content
  input_item_to_chat_message (obj d) =
      if is_type d ("message" ∷ [])
      then some (message_item d)
      else if is_type d ("function_call_output" ∷ [])
      then some (output_item d)
      else if is_type d ("function_call" ∷ [])
      then some (call_item d)
      else if is_type d ("reasoning" ∷ [])
      then none
      else other_item d
  input_item_to_chat_message _ = none

-- The loop over `input`: adjacent calls are one message.
abbrev pub is_call : Fields → Bool
is_call m = is_text (get "role" m) "assistant" && is_truthy (get "tool_calls" m)

abbrev pub calls_of : Option Json → List Json
calls_of (some (arr js)) = to_list js
calls_of _ = []

abbrev pub plain_role : Fields → Fields
plain_role m = if is_text (get "role" m) "developer" then assign "role" (str "system") m else m

abbrev pub flush_calls : List Json → List Fields → List Fields
flush_calls [] ms = ms
flush_calls (c ∷ calls) ms =
    (field "role" (str "assistant")
      (field "content" null (field "tool_calls" (arr (of_list (c ∷ calls))) no_fields)))
    ∷ ms

unfoldable pub group_calls : List Json → List Fields → List Fields
group_calls pending [] = flush_calls pending []
group_calls pending (m ∷ ms) = elim (is_call m) [
  | true ↦ group_calls (pending ++ calls_of (get "tool_calls" m)) ms
  | false ↦ flush_calls pending (plain_role m ∷ group_calls [] ms)
]

abbrev pub add_message : Option Fields → List Fields → List Fields
add_message none ms = ms
add_message (some m) ms = m ∷ ms

module _ (py : Python) where
  abbrev pub item_messages : List Json → List Fields
  item_messages [] = []
  item_messages (j ∷ js) = add_message (input_item_to_chat_message py j) (item_messages js)

  unfoldable pub input_messages : Option Json → List Fields
  unfolding group_calls
  input_messages (some (arr js)) = group_calls [] (item_messages (to_list js))
  input_messages (some (str s)) = if is_empty (strip s) then [] else user_message py s ∷ []
  input_messages _ = []

  abbrev pub system_message : String → List Fields
  system_message s =
      if is_empty s
      then []
      else field "role" (str "system") (field "content" (str s) no_fields) ∷ []

  abbrev pub instruction_messages : Option Json → List Fields
  instruction_messages j = if is_truthy j then system_message (flatten_content py j) else []

  abbrev pub instruction_of : Option Fields → Option String
  instruction_of none = none
  instruction_of (some fmt) = structured_output_instruction py fmt

  abbrev pub text_message : Option String → List Fields
  text_message none = []
  text_message (some s) = system_message s

  unfoldable pub chat_messages : Fields → List Fields
  unfolding input_messages structured_response_format structured_output_instruction
  chat_messages payload =
      instruction_messages (get "instructions" payload)
      ++ text_message (instruction_of (structured_response_format payload))
      ++ input_messages (get "input" payload)

  -- The tools that are functions with a name.
  abbrev pub chat_tool : Fields → Json
  chat_tool t = obj (
      field "type" (str "function") (
        field "function"
          (obj (
            field "name" (value_of (get "name" t)) (
              field "description" (value_of (get "description" t)) (
                field "parameters" (value_of (get "parameters" t))
                  (field "strict" (value_of (get "strict" t)) no_fields)))))
          no_fields))

  abbrev pub chat_tools : List Json → List Json
  chat_tools [] = []
  chat_tools (obj t ∷ ts) =
      let rest = chat_tools ts in
      if is_text (get "type" t) "function" && is_truthy (get "name" t)
      then chat_tool t ∷ rest
      else rest
  chat_tools (_ ∷ ts) = chat_tools ts

  abbrev pub tools_field : List Json → Fields
  tools_field [] = no_fields
  tools_field (t ∷ ts) = field "tools" (arr (of_list (t ∷ ts))) no_fields

  abbrev pub when : Bool → String → Option Json → Fields
  when b key j = if b then field key (value_of j) no_fields else no_fields

  abbrev pub format_field : Option Fields → Fields
  format_field none = no_fields
  format_field (some fmt) = field "response_format" (obj fmt) no_fields

  abbrev pub message_list : List Fields → List Json
  message_list ms = map (λ m. obj m) ms

  abbrev pub chat_fields : List Json → Fields → Fields
  chat_fields tools payload =
      append_fields
        (field "model" (get_default "model" payload (str "auto")) (
          field "messages" (arr (of_list (message_list (chat_messages payload))))
            (field "stream" (get_default "stream" payload (plain "False")) no_fields)))
        (append_fields (tools_field (chat_tools tools)) (
          append_fields (optional "tool_choice" (get "tool_choice" payload)) (
            append_fields (optional "temperature" (get "temperature" payload)) (
              append_fields
                (when (is_truthy (get "max_output_tokens" payload)) "max_tokens"
                  (get "max_output_tokens" payload))
                (append_fields (optional "top_p" (get "top_p" payload))
                  (format_field (structured_response_format payload)))))))

  -- The fields of the normalized request that go into the chat request.
  abbrev pub reasoning_names : List String
  reasoning_names =
      "reasoning_effort" ∷ "reasoning_summary" ∷ "reasoning" ∷ "thinking" ∷ "output_config" ∷ []

  abbrev pub copy_field : String → Option Json → Fields → Fields
  copy_field key none body = body
  copy_field key (some j) body = assign key j body

  abbrev pub copy_fields : List String → Fields → Fields → Fields
  copy_fields [] normalized body = body
  copy_fields (key ∷ keys) normalized body =
      copy_fields keys normalized (copy_field key (get key normalized) body)

  abbrev pub with_reasoning : Checked Fields → Fields → Checked Fields
  with_reasoning (invalid e) body = invalid e
  with_reasoning (valid normalized) body = valid (copy_fields reasoning_names normalized body)

  abbrev pub with_tools : (String → String) → Option (List Json) → Fields → Checked Fields
  with_tools lower none payload = invalid (py.message "iter" (value_of (get "tools" payload)))
  with_tools lower (some tools) payload =
      with_reasoning (normalize_chat_reasoning lower true payload) (chat_fields tools payload)

  unfoldable pub responses_to_chat : (String → String) → Fields → Checked Fields
  unfolding chat_messages
  responses_to_chat lower payload = with_tools lower (elements (get "tools" payload)) payload
