-- ===== src/ToolHistory.antt =====
-- providers/tool_history.py: tool results are put behind the assistant message that asked for them.
-- Python's `json.dumps`, `str` of a list or an object, and `str` of a number are arguments.
pub mod Count
pub mod Aligned
mod Tests
use Prim.Native.String.{[] as empty, ◌∷◌ as ◌◁◌, ◌++◌ as ◌+++◌}
use buddy2api.Prelude.{
  ℕ, zero, suc, Bool, true, false, not, ◌&&◌, ◌||◌, Option, none, some, List, [], ◌∷◌, ◌++◌, map,
  String, str_eq, if◌then◌else◌,
}
use buddy2api.Prelude.Member.{keep}
use buddy2api.Prelude.Texts.{strip, is_empty, str_in}
use buddy2api.History.{
  Json, null, plain, str, arr, obj, Items, Fields, no_fields, field, get, to_list, of_list, is_text,
  is_truthy, first_of,
}
use buddy2api.ContextBudget.Rejection.{join_lines}

pub record Python : Type 0 where
  pub dumps : Json → String
  pub repr : Json → String
  pub show : ℕ → String

-- `d[key] = value`, `d.pop(key, None)` and `a or b`
abbrev pub put : String → Json → Fields → Fields
put key v no_fields = field key v no_fields
put key v (field k j fields) =
    if str_eq k key then field k v fields else field k j (put key v fields)

abbrev pub pop : String → Fields → Fields
pop key no_fields = no_fields
pop key (field k j fields) = if str_eq k key then fields else field k j (pop key fields)

abbrev pub truthy : Option Json → Option Json
truthy o = if is_truthy o then o else none

-- `str(value)`
abbrev pub str_of : Python → Json → String
str_of py (str s) = s
str_of py (plain s) = s
str_of py j = py.repr j

abbrev pub str_or : Python → Option Json → String → String
str_or py none s = s
str_or py (some j) s = str_of py j

abbrev pub part_of : Json → List String
part_of (str s) = s ∷ []
part_of (obj d) = elim (first_of (truthy (get "text" d)) (truthy (get "content" d))) [
  | none ↦ empty ∷ []
  | some j ↦ elim j [ str s ↦ s ∷ [] | _ ↦ [] ]
]
part_of _ = []

abbrev pub parts_of : List Json → List String
parts_of [] = []
parts_of (j ∷ js) = part_of j ++ parts_of js

-- `_text`
unfoldable pub text : Python → Option Json → String
unfolding join_lines strip
text py none = empty
text py (some null) = empty
text py (some (str s)) = s
text py (some (arr items)) =
    strip (join_lines (keep (λ s. not (is_empty s)) (parts_of (to_list items))))
text py (some j) = str_of py j

abbrev pub list_of : Option Json → Option (List Json)
list_of (some (arr items)) = some (to_list items)
list_of _ = none

abbrev pub objects : List Json → List Fields
objects [] = []
objects (obj d ∷ js) = d ∷ objects js
objects (_ ∷ js) = objects js

abbrev pub or_none : Option (List Json) → List Json
or_none none = []
or_none (some js) = js

-- `_raw_calls`
abbrev pub raw_calls : Fields → List Fields
raw_calls message =
    objects
      (or_none (first_of (list_of (get "tool_calls" message)) (list_of (get "toolCalls" message))))

abbrev pub object_of : Option Json → Fields
object_of (some (obj d)) = d
object_of _ = no_fields

abbrev pub arguments_text : Python → Json → String
arguments_text py (str s) = s
arguments_text py null = py.dumps (obj no_fields)
arguments_text py j = py.dumps j

abbrev pub or_braces : String → String
or_braces s = if is_empty s then "{}" else s

abbrev pub given : Option Json → Json
given none = obj no_fields
given (some j) = j

abbrev pub call_id : Python → Fields → ℕ → String
call_id py call index = str_or py (truthy (get "id" call)) ("call_" +++ py.show index)

-- `_normalize_call`
abbrev pub normalize_call : Python → Fields → ℕ → Fields
normalize_call py call index =
    let function = object_of (get "function" call) in
    let name =
      str_or py (first_of (truthy (get "name" function)) (truthy (get "name" call))) empty in
    let arguments =
      given (
        first_of (get "arguments" function) (first_of (get "arguments" call) (get "input" call))) in
    field "id" (str (call_id py call index)) (
      field "type" (str "function") (
        field "function"
          (obj (
            field "name" (str name)
              (field "arguments" (str (or_braces (arguments_text py arguments))) no_fields)))
          no_fields))

abbrev pub ids_of : Python → List Fields → List String
ids_of py [] = []
ids_of py (call ∷ calls) = elim (truthy (get "id" call)) [
  | none ↦ ids_of py calls
  | some j ↦ str_of py j ∷ ids_of py calls
]

-- `_call_ids` and `_tool_id`
abbrev pub call_ids : Python → Fields → List String
call_ids py message = ids_of py (raw_calls message)

abbrev pub tool_id : Python → Fields → String
tool_id py message =
    str_or py (first_of (truthy (get "tool_call_id" message)) (truthy (get "toolCallId" message)))
      empty

-- `_as_user_note`
abbrev pub note_name : Python → Fields → String
note_name py message =
    let id = tool_id py message in
    str_or py (truthy (get "name" message)) (if is_empty id then "tool" else id)

unfoldable pub as_user_note : Python → Fields → Fields
unfolding text strip
as_user_note py message =
    let line =
      "[工具结果 " +++ (note_name py message +++ ("]\n" +++ text py (get "content" message))) in
    field "role" (str "user") (field "content" (str (strip line)) no_fields)

abbrev pub number_calls : Python → ℕ → List Fields → List Fields
number_calls py index [] = []
number_calls py index (call ∷ calls) =
    normalize_call py call index ∷ number_calls py (suc index) calls

abbrev pub id_in : List String → Fields → Bool
id_in ids call = elim (get "id" call) [
  | none ↦ false
  | some j ↦ elim j [ str s ↦ str_in s ids | _ ↦ false ]
]

abbrev pub surviving : Python → Fields → List Fields → List Fields
surviving py message matches =
    keep (id_in (map (tool_id py) matches)) (number_calls py 0 (raw_calls message))

abbrev pub or_space : String → String
or_space s = if is_empty s then " " else s

unfoldable pub tool_message : Python → Fields → Fields
unfolding text
tool_message py message = field "role" (str "tool") (
    field "tool_call_id" (str (tool_id py message))
      (field "content" (str (text py (get "content" message))) no_fields))

abbrev pub calls_json : List Fields → Json
calls_json calls = arr (of_list (map (λ c. obj c) calls))

abbrev pub content_of : Python → Fields → Json
content_of py message = str (or_space (strip (text py (get "content" message))))

abbrev pub with_calls : Python → Fields → List Fields → Fields
with_calls py message calls =
    put "tool_calls" (calls_json calls)
      (put "content" (content_of py message) (pop "toolCalls" message))

abbrev pub emit_calls : Python → Fields → List Fields → List Fields → List Fields
emit_calls py message matches [] =
    pop "tool_calls" (pop "toolCalls" message) ∷ map (as_user_note py) matches
emit_calls py message matches calls = with_calls py message calls ∷ map (tool_message py) matches

-- What one assistant message with calls becomes, with its results and the messages between.
unfoldable pub emit_group : Python → Fields → List Fields → List Fields → List Fields
unfolding as_user_note tool_message text strip
emit_group py message matches between =
    emit_calls py message matches (surviving py message matches) ++ between

abbrev pub is_caller : Python → Fields → Bool
is_caller py message =
    is_text (get "role" message) "assistant"
    && (elim (call_ids py message) [ [] ↦ false | id ∷ ids ↦ true ])

abbrev pub is_tool : Fields → Bool
is_tool message = is_text (get "role" message) "tool"

abbrev pub plain_message : Python → Fields → Fields
plain_message py message = if is_tool message then as_user_note py message else message

-- The loops of `repair_openai_tool_history`: outside of a call, or behind an assistant message with its results and the messages between so far.
pub data Mode : Type 0 where
  outside : Mode
  behind : Fields → List Fields → List Fields → Mode

unfoldable pub close_mode : Python → Mode → List Fields
unfolding emit_group
close_mode py outside = []
close_mode py (behind message matches between) = emit_group py message matches between

abbrev pub advance : Python → Fields → Mode → List Fields × Mode
advance py next outside = (plain_message py next ∷ [], outside)
advance py next (behind message matches between) =
    if is_tool next && str_in (tool_id py next) (call_ids py message)
    then ([], behind message (matches ++ next ∷ []) between)
    else ([], behind message matches (between ++ plain_message py next ∷ []))

abbrev pub take_next : Python → Fields → Mode → List Fields × Mode
take_next py next mode =
    if is_caller py next then (close_mode py mode, behind next [] []) else advance py next mode

unfoldable pub repair_from : Python → Mode → List Fields → List Fields
unfolding close_mode as_user_note
repair_from py mode [] = close_mode py mode
repair_from py mode (next ∷ source) =
    let (out, after) = take_next py next mode in out ++ repair_from py after source

unfoldable pub repair_openai_tool_history : Python → List Json → List Fields
unfolding repair_from
repair_openai_tool_history py messages = repair_from py outside (objects messages)
