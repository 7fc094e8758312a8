-- ===== src/ReasoningControls/Normalized.antt =====
-- reasoning_controls.py, `resolve_reasoning_control`, `chat_reasoning_effort`, `workbuddy_reasoning_effort` and `normalize_chat_reasoning`.
use Prim.Native.String.{[] as empty, ◌++◌ as ◌+++◌}
use buddy2api.Prelude.{
  Bool, true, false, not, ◌&&◌, ◌||◌, Option, none, some, List, [], ◌∷◌, ◌++◌, String, str_eq,
  if◌then◌else◌,
}
use buddy2api.Prelude.Texts.{strip, str_in}
use buddy2api.History.{Json, null, str, obj, Fields, no_fields, field, get}
use buddy2api.Responses.Reading.{has_key, assign}
use buddy2api.ReasoningControls.{
  Checked, invalid, valid, ControlMode, default, disabled, enabled, leveled, ReasoningControl,
  of_mode, refuse, from_effort, from_switch, from_disable_switch, from_budget, collect, says,
  has_conflict, first_choice, choose,
}

-- `d.pop(key, None)`; the keys of an object are distinct.
abbrev pub pop_key : String → Fields → Fields
pop_key key no_fields = no_fields
pop_key key (field k j fields) =
    let rest = pop_key key fields in if str_eq k key then rest else field k j rest

abbrev pub remove_all : List String → Fields → Fields
remove_all [] d = d
remove_all (key ∷ keys) d = remove_all keys (pop_key key d)

-- What the effort of a nested object is read from; an object without the key asks for nothing.
abbrev pub nested : String → Option Json → Option Json
nested key (some (obj d)) = get key d
nested key _ = none

-- A control that is no object, read as an effort.
abbrev pub bare : Option Json → Option Json
bare (some (obj d)) = none
bare j = j

-- The part of the message that names the controls in conflict.
abbrev pub or_control : Option String → String
or_control none = "reasoning control"
or_control (some s) = s

abbrev pub counts_for : String → ReasoningControl → Bool
counts_for group c = says group true c || says group false c

abbrev pub join_comma : List String → String
join_comma [] = empty
join_comma (s ∷ []) = s
join_comma (s ∷ t ∷ rest) = s +++ (", " +++ join_comma (t ∷ rest))

abbrev pub sources_of : String → List ReasoningControl → List String
sources_of group [] = []
sources_of group (c ∷ cs) =
    let rest = sources_of group cs in
    if counts_for group c then or_control c.source ∷ rest else rest

abbrev pub conflict : String → List ReasoningControl → String
conflict group cs = "conflicting reasoning controls: " +++ join_comma (sources_of group cs)

abbrev pub validated : List ReasoningControl → List ReasoningControl → Checked ReasoningControl
validated efforts switches =
    let all = efforts ++ switches in
    if has_conflict "reasoning" all
    then invalid (conflict "reasoning" all)
    else if has_conflict "thinking" all
    then invalid (conflict "thinking" all)
    else valid (choose (first_choice efforts) switches)

abbrev pub then_switches :
    List ReasoningControl → Checked (List ReasoningControl) → Checked ReasoningControl
then_switches efforts (invalid e) = invalid e
then_switches efforts (valid switches) = validated efforts switches

abbrev pub then_efforts :
    Checked (List ReasoningControl) → Checked (List ReasoningControl) → Checked ReasoningControl
then_efforts (invalid e) switches = invalid e
then_efforts (valid efforts) switches = then_switches efforts switches

module _ (lower : String → String) where
  -- `thinking.type`; a missing key is no candidate, and None is no string.
  abbrev pub type_word : String → Checked (Option ReasoningControl)
  type_word word =
      if str_eq word "disabled"
      then valid (some (of_mode disabled "thinking.type"))
      else if str_in word ("enabled" ∷ "adaptive" ∷ [])
      then valid (some (of_mode enabled "thinking.type"))
      else refuse "thinking.type" "must be enabled, adaptive, or disabled"

  unfoldable pub from_type : Option Json → Checked (Option ReasoningControl)
  from_type none = valid none
  from_type (some (str s)) = type_word (lower (strip s))
  from_type (some _) = refuse "thinking.type" "must be a string"

  abbrev pub level_of : String → Fields → Checked (Option ReasoningControl)
  level_of key payload = from_effort lower (get key payload) key

  abbrev pub level_in : String → String → Fields → Checked (Option ReasoningControl)
  level_in container source payload =
      from_effort lower (nested "effort" (get container payload)) source

  -- The first two candidates stand in the order that the caller prefers.
  abbrev pub effort_checks : Bool → Fields → List (Checked (Option ReasoningControl))
  effort_checks prefer_nested payload =
      let top = level_of "reasoning_effort" payload in
      let inner = level_in "reasoning" "reasoning.effort" payload in
      let rest =
        level_of "reasoningEffort" payload
        ∷ level_in "output_config" "output_config.effort" payload
        ∷ level_in "thinking" "thinking.effort" payload
        ∷ from_effort lower (bare (get "reasoning" payload)) "reasoning"
        ∷ from_effort lower (bare (get "thinking" payload)) "thinking"
        ∷ [] in
      if prefer_nested then inner ∷ top ∷ rest else top ∷ inner ∷ rest

  abbrev pub switch_checks : Fields → List (Checked (Option ReasoningControl))
  switch_checks payload =
      from_type (nested "type" (get "thinking" payload))
      ∷ from_budget (nested "budget_tokens" (get "thinking" payload)) "thinking.budget_tokens"
      ∷ from_switch lower (nested "enabled" (get "reasoning" payload)) "reasoning.enabled"
      ∷ from_budget (nested "budget_tokens" (get "reasoning" payload)) "reasoning.budget_tokens"
      ∷ from_switch lower (get "enable_thinking" payload) "enable_thinking"
      ∷ from_switch lower (get "think" payload) "think"
      ∷ from_disable_switch (get "disable_reasoning" payload) "disable_reasoning"
      ∷ []

  unfoldable pub resolve_reasoning_control : Bool → Fields → Checked ReasoningControl
  resolve_reasoning_control prefer_nested payload =
      then_efforts (collect (effort_checks prefer_nested payload)) (collect (switch_checks payload))

unfoldable pub chat_reasoning_effort : ControlMode → Option String → Option String
chat_reasoning_effort default effort = none
chat_reasoning_effort disabled effort = some "none"
chat_reasoning_effort enabled effort = some "high"
chat_reasoning_effort leveled effort = effort

abbrev pub workbuddy_levels : List (String × String)
workbuddy_levels =
    ("minimal", "low")
    ∷ ("low", "low")
    ∷ ("medium", "high")
    ∷ ("high", "high")
    ∷ ("xhigh", "max")
    ∷ ("max", "max")
    ∷ ("ultra", "max")
    ∷ []

abbrev pub level_or_same : List (String × String) → String → String
level_or_same [] word = word
level_or_same ((k, v) ∷ rest) word = if str_eq k word then v else level_or_same rest word

unfoldable pub workbuddy_reasoning_effort : ControlMode → Option String → Option String
workbuddy_reasoning_effort enabled effort = some "high"
workbuddy_reasoning_effort leveled none = none
workbuddy_reasoning_effort leveled (some e) = some (level_or_same workbuddy_levels e)
workbuddy_reasoning_effort _ effort = none

-- `if remaining: body[key] = remaining else: body.pop(key, None)`
abbrev pub put_remaining : String → Fields → Fields → Fields
put_remaining key no_fields body = pop_key key body
put_remaining key (field k j rest) body = assign key (obj (field k j rest)) body

abbrev pub is_there : Option Json → Bool
is_there none = false
is_there (some null) = false
is_there (some j) = true

abbrev pub value_or_null : Option Json → Json
value_or_null none = null
value_or_null (some j) = j

abbrev pub with_summary : Fields → Fields → Fields
with_summary reasoning body =
    if is_there (get "summary" reasoning) && not (has_key "reasoning_summary" body)
    then assign "reasoning_summary" (value_or_null (get "summary" reasoning)) body
    else body

unfoldable pub clean_reasoning : Option Json → Fields → Fields
clean_reasoning none body = body
clean_reasoning (some (obj d)) body =
    put_remaining "reasoning" (remove_all ("effort" ∷ "enabled" ∷ "summary" ∷ []) d)
      (with_summary d body)
clean_reasoning (some _) body = pop_key "reasoning" body

unfoldable pub clean_thinking : Option Json → Fields → Fields
clean_thinking none body = body
clean_thinking (some (obj d)) body =
    put_remaining "thinking" (remove_all ("type" ∷ "effort" ∷ []) d) body
clean_thinking (some _) body = pop_key "thinking" body

unfoldable pub clean_output : Option Json → Fields → Fields
clean_output (some (obj d)) body =
    if has_key "effort" d then put_remaining "output_config" (pop_key "effort" d) body else body
clean_output _ body = body

abbrev pub other_names : List String
other_names = "reasoningEffort" ∷ "enable_thinking" ∷ "disable_reasoning" ∷ "think" ∷ []

unfoldable pub clean : Fields → Fields
unfolding clean_reasoning clean_thinking clean_output
clean payload =
    let a = clean_reasoning (get "reasoning" payload) payload in
    let b = clean_thinking (get "thinking" a) a in
    let c = clean_output (get "output_config" b) b in remove_all other_names c

unfoldable pub set_effort : Option String → Fields → Fields
set_effort none body = pop_key "reasoning_effort" body
set_effort (some e) body = assign "reasoning_effort" (str e) body

abbrev pub with_control : Fields → Checked ReasoningControl → Checked Fields
with_control payload (invalid e) = invalid e
with_control payload (valid c) =
    valid (set_effort (chat_reasoning_effort c.mode c.effort) (clean payload))

unfoldable pub normalize_chat_reasoning : (String → String) → Bool → Fields → Checked Fields
unfolding resolve_reasoning_control clean set_effort
normalize_chat_reasoning lower prefer_nested payload =
    with_control payload (resolve_reasoning_control lower prefer_nested payload)
