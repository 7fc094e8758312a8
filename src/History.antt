-- ===== src/History.antt =====
-- router.py, `estimate_prompt_tokens` and `trim_codex_prompt`: the prompt of a Codex client is cut to the model's window.
pub mod Segments
pub mod Kept
pub mod Budget
mod Tests
use Prim.Native.Char.{Char, code}
use Prim.Native.String.{[] as empty, ◌∷◌ as ◌◁◌}
use buddy2api.Prelude.{
  ℕ, zero, suc, ◌+◌, ◌-◌, ◌/◌, max, min, Bool, true, false, not, ◌&&◌, ◌||◌, Option, none, some,
  List, [], ◌∷◌, ◌++◌, String, str_eq, leb, ltb, if◌then◌else◌, length,
}

-- A JSON value; a number or a Boolean by its `str(value)`.
mutual
  pub data Json : Type 0 where
    null : Json
    plain : String → Json
    str : String → Json
    arr : Items → Json
    obj : Fields → Json

  pub data Items : Type 0 where
    no_items : Items
    item : Json → Items → Items

  pub data Fields : Type 0 where
    no_fields : Fields
    field : String → Json → Fields → Fields

abbrev between : ℕ → ℕ → ℕ → Bool
between a n b = leb a n && leb n b

abbrev pub is_wide : Char → Bool
is_wide c =
    let n = code c in
    between 0x3400 n 0x9FFF
    || (between 0xF900 n 0xFAFF || (between 0x3000 n 0x303F || between 0xFF00 n 0xFFEF))

-- The counts `cjk` and `other`.
unfoldable pub count_chars : String → ℕ × ℕ
count_chars empty = (0, 0)
count_chars (c ◁ s) =
    let (cjk, other) = count_chars s in if is_wide c then (suc cjk, other) else (cjk, suc other)

unfoldable pub estimate_text_tokens : String → ℕ
unfolding count_chars
estimate_text_tokens s = let (cjk, other) = count_chars s in cjk + (other + 3) / 4

mutual
  pub estimate_value : Json → ℕ
  estimate_value null = 0
  estimate_value (plain s) = estimate_text_tokens s
  estimate_value (str s) = estimate_text_tokens s
  estimate_value (arr items) = estimate_items items
  estimate_value (obj fields) = estimate_fields fields

  pub estimate_items : Items → ℕ
  estimate_items no_items = 0
  estimate_items (item j items) = estimate_value j + estimate_items items

  pub estimate_fields : Fields → ℕ
  estimate_fields no_fields = 0
  estimate_fields (field key j fields) =
      estimate_text_tokens key + estimate_value j + estimate_fields fields

abbrev pub estimate_prompt_tokens : Fields → ℕ
estimate_prompt_tokens payload = max 1 (estimate_fields payload)

-- `d.get(key)`; the keys of an object are distinct.
abbrev pub get : String → Fields → Option Json
get key no_fields = none
get key (field k j fields) = if str_eq k key then some j else get key fields

-- `d[key] = value` for a key that is there
abbrev pub set_field : String → Json → Fields → Fields
set_field key v no_fields = no_fields
set_field key v (field k j fields) =
    if str_eq k key then field k v fields else field k j (set_field key v fields)

abbrev pub to_list : Items → List Json
to_list no_items = []
to_list (item j items) = j ∷ to_list items

abbrev pub of_list : List Json → Items
of_list [] = no_items
of_list (j ∷ js) = item j (of_list js)

-- `value == text`
abbrev pub is_text : Option Json → String → Bool
is_text (some (str s)) t = str_eq s t
is_text _ t = false

-- `bool(value)`; a plain value is false where it is zero or False.
abbrev pub is_zero_text : String → Bool
is_zero_text s = str_eq s "False" || (str_eq s "0" || (str_eq s "0.0" || str_eq s "-0.0"))

abbrev pub is_truthy : Option Json → Bool
is_truthy none = false
is_truthy (some null) = false
is_truthy (some (plain s)) = not (is_zero_text s)
is_truthy (some (str empty)) = false
is_truthy (some (str (c ◁ s))) = true
is_truthy (some (arr no_items)) = false
is_truthy (some (arr (item j js))) = true
is_truthy (some (obj no_fields)) = false
is_truthy (some (obj (field k j fs))) = true

abbrev pub is_system_item : Json → Bool
is_system_item (obj d) = is_text (get "role" d) "system" || is_text (get "role" d) "developer"
is_system_item _ = false

abbrev pub is_tool_carrier : Json → Bool
is_tool_carrier (obj d) =
    is_text (get "type" d) "function_call"
    || (is_text (get "type" d) "function_call_output"
        || (is_text (get "role" d) "tool"
            || (is_text (get "role" d) "assistant" && is_truthy (get "tool_calls" d))))
is_tool_carrier _ = false

abbrev pub is_reasoning : Json → Bool
is_reasoning (obj d) = is_text (get "type" d) "reasoning"
is_reasoning _ = false

-- An item that belongs to a group of its neighbours.
abbrev pub joins : Json → Bool
joins j = is_tool_carrier j || is_reasoning j

abbrev pub close_group : List Json → List (List Json) → List (List Json)
close_group [] segments = segments
close_group (j ∷ group) segments = (j ∷ group) ∷ segments

-- The loops of `_history_segments`, with the group that is being gathered.
unfoldable pub gather : List Json → List Json → List (List Json)
gather group [] = close_group group []
gather group (j ∷ items) = elim (joins j) [
  | true ↦ gather (group ++ j ∷ []) items
  | false ↦ close_group group ((j ∷ []) ∷ gather [] items)
]

unfoldable pub history_segments : List Json → List (List Json)
unfolding gather
history_segments items = gather [] items

abbrev pub all_system : List Json → Bool
all_system [] = true
all_system (j ∷ js) = is_system_item j && all_system js

-- `segments.pop(i)` for the first segment of those before the last that is not made of system items; `none` where there is no such one.
abbrev pub with_first : List Json → Option (List (List Json)) → Option (List (List Json))
with_first segment none = none
with_first segment (some rest) = some (segment ∷ rest)

unfoldable pub drop_first : List (List Json) → Option (List (List Json))
drop_first [] = none
drop_first (segment ∷ []) = none
drop_first (segment ∷ next ∷ rest) =
    if not (all_system segment)
    then some (next ∷ rest)
    else with_first segment (drop_first (next ∷ rest))

abbrev pub tail : List (List Json) → List (List Json)
tail [] = []
tail (segment ∷ rest) = rest

abbrev pub or_tail : List (List Json) → Option (List (List Json)) → List (List Json)
or_tail segments none = tail segments
or_tail segments (some rest) = rest

-- The body of the loop: the oldest segment goes where all before the last are made of system items.
unfoldable pub drop_segment : List (List Json) → List (List Json)
unfolding drop_first
drop_segment segments = or_tail segments (drop_first segments)

abbrev pub flatten : List (List Json) → List Json
flatten [] = []
flatten (segment ∷ segments) = segment ++ flatten segments

abbrev pub with_items : String → List (List Json) → Fields → Fields
with_items key segments payload = set_field key (arr (of_list (flatten segments))) payload

-- `_trim_history` on the payload and its segments; each round drops a segment.
unfoldable pub trim_segments :
    ℕ → String → ℕ → Fields → List (List Json) → Fields × List (List Json)
unfolding drop_segment
trim_segments zero key limit payload segments = (payload, segments)
trim_segments (suc fuel) key limit payload segments =
    elim (ltb limit (estimate_prompt_tokens payload) && ltb 1 (length segments)) [
      | true ↦
          trim_segments fuel key limit (with_items key (drop_segment segments) payload)
            (drop_segment segments)
      | false ↦ (payload, segments)
    ]

unfoldable pub trim_history : Fields → String → List Json → ℕ → Fields × List (List Json)
unfolding trim_segments history_segments
trim_history payload key items limit =
    let segments = history_segments items in
    trim_segments (length segments) key limit payload segments

-- `codex_prompt_limit`, from the confirmed window of the model's row.
abbrev pub prompt_cap : ℕ
prompt_cap = 500000

abbrev pub window_of : Option ℕ → ℕ
window_of none = prompt_cap
window_of (some zero) = prompt_cap
window_of (some (suc n)) = min (suc n) prompt_cap

abbrev pub codex_prompt_limit : Option ℕ → ℕ
codex_prompt_limit confirmed = max 1 (window_of confirmed - 32768)

abbrev pub trim_key : Fields → String → Option Json → Option (String × List Json)
trim_key payload key (some (arr items)) = some (key, to_list items)
trim_key payload key _ = none

abbrev pub first_of {ℓ} : {A : Type ℓ} → Option A → Option A → Option A
first_of (some a) b = some a
first_of none b = b

abbrev pub trimmed : Fields → ℕ → Option (String × List Json) → Fields
trimmed payload limit none = payload
trimmed payload limit (some (key, items)) = (trim_history payload key items limit).0

-- `none` is the HTTP error 400 with the code prompt_too_long.
unfoldable pub trim_codex_prompt : Fields → Option ℕ → Option Fields
unfolding trim_history
trim_codex_prompt payload confirmed =
    let limit = codex_prompt_limit confirmed in
    let result = trimmed payload limit (
      first_of (trim_key payload "input" (get "input" payload))
        (trim_key payload "messages" (get "messages" payload))) in
    if leb (estimate_prompt_tokens payload) limit
    then some payload
    else (if leb (estimate_prompt_tokens result) limit then some result else none)
