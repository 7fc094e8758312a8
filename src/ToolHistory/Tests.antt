-- ===== src/ToolHistory/Tests.antt =====
-- The repair of a small history.
use buddy2api.Prelude.{◌≡◌, refl, false, List, [], ◌∷◌, String}
use buddy2api.Prelude.Texts.{strip, lstrip, rstrip}
use buddy2api.History.{Json, null, str, arr, obj, no_items, item, Fields, no_fields, field}
use buddy2api.ToolHistory.{
  Python, text, as_user_note, tool_message, emit_group, close_mode, repair_from,
  repair_openai_tool_history,
}
use buddy2api.ToolHistory.Aligned.{IsAligned, repair_openai_tool_history-IsAligned}

abbrev py : Python
py = record { dumps = λ j. "{}"; repr = λ j. "?"; show = λ n. "n" }

abbrev user : String → Fields
user s = field "role" (str "user") (field "content" (str s) no_fields)

abbrev call : String → Json
call id = obj (
    field "id" (str id) (
      field "function" (obj (field "name" (str "ls") (field "arguments" (str "") no_fields)))
        no_fields))

abbrev asks : Fields
asks =
    field "role" (str "assistant")
      (field "tool_calls" (arr (item (call "a") (item (call "b") no_items))) no_fields)

abbrev result : String → Fields
result id =
    field "role" (str "tool")
      (field "tool_call_id" (str id) (field "content" (str "out") no_fields))

abbrev history : List Json
history = obj asks ∷ obj (user "wait") ∷ null ∷ obj (result "x") ∷ obj (result "a") ∷ []

-- The result moves up, the call without a result goes, and the stray result becomes a note.
repaired :
    repair_openai_tool_history py history
    ≡ field "role" (str "assistant") (
        field "tool_calls"
          (arr (
            item
              (obj (
                field "id" (str "a") (
                  field "type" (str "function") (
                    field "function"
                      (obj (field "name" (str "ls") (field "arguments" (str "{}") no_fields)))
                      no_fields))))
              no_items))
          (field "content" (str " ") no_fields))
      ∷ result "a"
      ∷ user "wait"
      ∷ user "[工具结果 x]\nout"
      ∷ []
unfolding repair_openai_tool_history repair_from close_mode emit_group as_user_note tool_message
    text strip lstrip rstrip
repaired = refl

repair_openai_tool_history-IsAligned_example :
    IsAligned false (repair_openai_tool_history py history)
repair_openai_tool_history-IsAligned_example = repair_openai_tool_history-IsAligned py history
