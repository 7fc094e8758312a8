-- ===== src/Responses/Reading.antt =====
-- responses.py: how `_chat_stream_to_responses_stream` reads the values of a chunk.
use Prim.Native.String.{[] as empty, ◌∷◌ as ◌◁◌, ◌++◌ as ◌+++◌}
use buddy2api.Prelude.{
  ℕ, Bool, true, false, not, ◌&&◌, ◌||◌, Option, none, some, List, [], ◌∷◌, ◌++◌, String, str_eq,
  if◌then◌else◌,
}
use buddy2api.Prelude.Texts.{is_empty, str_in}
use buddy2api.Prelude.Slots.{get_elem?}
use buddy2api.History.{
  Json, null, plain, str, arr, obj, Fields, no_fields, field, set_field, to_list, is_truthy,
}
use buddy2api.ContextBudget.Rejection.{starts_with}
use buddy2api.Responses.{Python, ItemState}
use buddy2api.Responses.Stream.{CallKey}

-- `set.add`
abbrev pub add_to : String → List String → List String
add_to c cs = if str_in c cs then cs else cs ++ c ∷ []

-- `finished_choices[c] = reason`
abbrev pub finish_choice : String → String → List (String × String) → List (String × String)
finish_choice c reason [] = (c, reason) ∷ []
finish_choice c reason ((d, r) ∷ rest) =
    if str_eq d c then (d, reason) ∷ rest else (d, r) ∷ finish_choice c reason rest

-- `dict.update`
abbrev pub has_key : String → Fields → Bool
has_key key no_fields = false
has_key key (field k j fields) = str_eq k key || has_key key fields

abbrev pub add_field : String → Json → Fields → Fields
add_field key v no_fields = field key v no_fields
add_field key v (field k j fields) = field k j (add_field key v fields)

abbrev pub assign : String → Json → Fields → Fields
assign key v d = if has_key key d then set_field key v d else add_field key v d

abbrev pub update_all : Fields → Fields → Fields
update_all no_fields d = d
update_all (field k j fields) d = update_all fields (assign k j d)

-- `value or default` where the value of a missing key is None
abbrev pub or_value : Option Json → Json → Json
or_value (some j) default = if is_truthy (some j) then j else default
or_value none default = default

abbrev pub find_call : CallKey → List (CallKey × ℕ) → Option ℕ
find_call key [] = none
find_call (c, t) (((d, u), i) ∷ rest) =
    if str_eq d c && str_eq u t then some i else find_call (c, t) rest

-- `any(current_choice == choice_index and not state.get("closed") ...)`
abbrev pub is_open_state : Option ItemState → Bool
is_open_state none = false
is_open_state (some s) = not s.closed

abbrev pub has_open_tool : String → List (CallKey × ℕ) → List ItemState → Bool
has_open_tool c [] items = false
has_open_tool c (((d, u), i) ∷ rest) items =
    (str_eq d c && is_open_state (get_elem? items i)) || has_open_tool c rest items

abbrev pub is_some : Option ℕ → Bool
is_some none = false
is_some (some i) = true

-- `s.endswith(word)`
unfoldable pub ends_with : String → String → Bool
ends_with word empty = is_empty word
ends_with word (c ◁ s) = str_eq word (c ◁ s) || ends_with word s

-- The name of a call that grows by parts, or is sent again as a whole.
unfoldable pub grow_name : String → String → String
unfolding starts_with ends_with
grow_name name current =
    if is_empty current || starts_with current name
    then name
    else (if ends_with name current then current else current +++ name)

-- What a `for` loop takes from a value that is true, or false and replaced by []: `none` where it raises. The keys of a dict and the characters of a text are no dicts, and the loops pass over them.
abbrev pub elements : Option Json → Option (List Json)
elements (some (arr js)) = some (to_list js)
elements (some (plain s)) = if is_truthy (some (plain s)) then none else some []
elements _ = some []

-- `value or {}`, `none` where `.get` raises.
abbrev pub mapping : Option Json → Option Fields
mapping (some (obj d)) = some d
mapping (some j) = if is_truthy (some j) then none else some no_fields
mapping none = some no_fields

abbrev pub value_of : Option Json → Json
value_of none = null
value_of (some j) = j

module _ (py : Python) where
  -- `str(value)`
  abbrev pub as_text : Json → String
  as_text (str s) = s
  as_text (plain s) = s
  as_text j = py.str_of j

  -- `int(d.get("index", 0))`, 0 where it raises
  abbrev pub or_zero : Option String → String
  or_zero none = "0"
  or_zero (some n) = n

  abbrev pub index_of : Option Json → String
  index_of none = "0"
  index_of (some j) = or_zero (py.int j)
