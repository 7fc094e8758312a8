-- ===== src/Responses/RequestTests.antt =====
-- A request with two calls side by side, a reply with a call, and the theorems at them.
use buddy2api.Prelude.{◌≡◌, refl, none, some, List, [], ◌∷◌, String}
use buddy2api.History.{
  Json, null, plain, str, arr, obj, Items, no_items, item, Fields, no_fields, field, get, to_list,
}
use buddy2api.Responses.{completed}
use buddy2api.Responses.Request.{
  input_messages, item_messages, plain_role, input_item_to_chat_message,
}
use buddy2api.Responses.Grouped.{pieces, as_is, Apart, pieces-input_messages, input_messages-Apart}
use buddy2api.Responses.Reply.{Reply, dicts_of, chat_response_to_responses, add_calls}
use buddy2api.Responses.Ending.{responses_usage}
use buddy2api.Responses.Replied.{Replies, chat_response_to_responses-Replies}
use buddy2api.Responses.Tests.{py}

abbrev call : String → Json
call id = obj (
    field "type" (str "function_call") (
      field "call_id" (str id)
        (field "name" (str "look") (field "arguments" (str "{}") no_fields))))

abbrev output : String → Json
output id = obj (
    field "type" (str "function_call_output")
      (field "call_id" (str id) (field "output" (str "ok") no_fields)))

abbrev said_by : String → Json
said_by role =
    obj (
      field "type" (str "message") (field "role" (str role) (field "content" (str "hi") no_fields)))

abbrev request_items : Items
request_items =
    item (said_by "developer")
      (item (call "a") (item (call "b") (item (output "a") (item (output "b") no_items))))

abbrev role_of : Fields → Json
role_of (field k j d) = j
role_of no_fields = null

abbrev roles : List Fields → List Json
roles [] = []
roles (m ∷ ms) = role_of m ∷ roles ms

request_roles :
    roles (input_messages py (some (arr request_items)))
    ≡ str "system" ∷ str "assistant" ∷ str "tool" ∷ str "tool" ∷ []
unfolding input_messages input_item_to_chat_message
request_roles = refl

pieces-input_messages_example :
    pieces as_is (input_messages py (some (arr request_items)))
    ≡ pieces plain_role (item_messages py (to_list request_items))
pieces-input_messages_example = pieces-input_messages py request_items

input_messages-Apart_example : Apart (input_messages py (some (arr request_items)))
input_messages-Apart_example = input_messages-Apart py request_items

abbrev chat_reply : Fields
chat_reply = field "id" (str "1") (
    field "choices"
      (arr (
        item
          (obj (
            field "message" (obj (field "content" (str "hi") no_fields))
              (field "finish_reason" (str "stop") no_fields)))
          no_items))
      no_fields)

abbrev reply : Reply
reply = record {
  id = "resp_1";
  created_at = 7;
  status = completed;
  model = str "m";
  output =
      field "type" (str "message") (
        field "id" (str "msg_0") (
          field "role" (str "assistant") (
            field "status" (str "completed") (
              field "content"
                (arr (
                  item
                    (obj (
                      field "type" (str "output_text")
                        (field "text" (str "hi") (field "annotations" (arr no_items) no_fields))))
                    no_items))
                no_fields))))
      ∷ [];
  error = none;
  incomplete_details = none;
  usage = field "input_tokens" (plain "0") (
      field "input_tokens_details" (obj (field "cached_tokens" (plain "0") no_fields)) (
        field "output_tokens" (plain "0") (
          field "output_tokens_details" (obj (field "reasoning_tokens" (plain "0") no_fields))
            (field "total_tokens" (plain "0") no_fields))));
  request_fields =
      field "parallel_tool_calls" (plain "True")
        (field "tool_choice" (str "auto") (field "tools" (arr no_items) no_fields));
}

reply_made : chat_response_to_responses py 7 chat_reply (str "m") no_fields ≡ some reply
unfolding chat_response_to_responses add_calls responses_usage
reply_made = refl

chat_response_to_responses-Replies_example :
    (choices : List Fields) × (dicts_of (get "choices" chat_reply) ≡ some choices)
    × Replies py choices reply
chat_response_to_responses-Replies_example =
    chat_response_to_responses-Replies py 7 chat_reply (str "m") no_fields reply reply_made
