-- ===== src/Responses/Items.antt =====
-- responses.py, `chat_response_to_responses`: what the choices of a chat reply show, and the items that show it.
use buddy2api.Prelude.{◌≡◌, not, ◌&&◌, Option, none, some, List, [], ◌∷◌, ◌++◌, map, if◌then◌else◌}
use buddy2api.History.{Json, str, arr, obj, no_items, item, Fields, no_fields, get, is_truthy}
use buddy2api.Responses.{Python}
use buddy2api.Responses.Reading.{mapping, value_of}
use buddy2api.Responses.Request.{get_default}
use buddy2api.Responses.Reply.{dicts_of, same_value}

-- A thought, a text, or a call with its id, where it has one, its name and its arguments.
pub data Shown : Type 0 where
  thought said : Json → Shown
  called : Option Json → Json → Json → Shown

abbrev pub only_text : Option Json → Option Json
only_text (some (arr (item (obj d) no_items))) = get "text" d
only_text _ = none

abbrev pub HasId : Option Json → Fields → Type 0
HasId none d = Unit
HasId (some j) d = (get "id" d ≡ some j) × (get "call_id" d ≡ some j)

abbrev pub IsItem : Shown → Fields → Type 0
IsItem (thought t) d =
    (get "type" d ≡ some (str "reasoning")) × (only_text (get "summary" d) ≡ some t)
IsItem (said t) d = (get "type" d ≡ some (str "message")) × (only_text (get "content" d) ≡ some t)
IsItem (called id name arguments) d =
    (get "type" d ≡ some (str "function_call"))
    × HasId id d
    × (get "name" d ≡ some name)
    × (get "arguments" d ≡ some arguments)

-- The items show these things, one each and in order.
abbrev pub AreItems : List Shown → List Fields → Type 0
AreItems [] [] = Unit
AreItems (s ∷ ss) (d ∷ ds) = IsItem s d × AreItems ss ds
AreItems _ _ = ⊥

pub AreItems-append :
    (ss ts : List Shown) (ds es : List Fields)
    → AreItems ss ds
    → AreItems ts es
    → AreItems (ss ++ ts) (ds ++ es)
AreItems-append [] ts [] es h k = k
AreItems-append [] ts (d ∷ ds) es h k = absurd h
AreItems-append (s ∷ ss) ts [] es h k = absurd h
AreItems-append (s ∷ ss) ts (d ∷ ds) es h k = (h.0, AreItems-append ss ts ds es h.1 k)

abbrev pub fields_or_none : Option Fields → Fields
fields_or_none none = no_fields
fields_or_none (some d) = d

abbrev pub list_or_none : Option (List Fields) → List Fields
list_or_none none = []
list_or_none (some ds) = ds

-- What a call, a message and a choice show.
abbrev pub shown_call : Fields → Shown
shown_call tc =
    let fn = fields_or_none (mapping (get "function" tc)) in
    called (if is_truthy (get "id" tc) then some (value_of (get "id" tc)) else none)
      (get_default "name" fn (str "")) (get_default "arguments" fn (str ""))

module _ (py : Python) where
  abbrev pub shown_texts : Option Json → Option Json → List Shown
  shown_texts r t =
      (if is_truthy r then thought (value_of r) ∷ [] else [])
      ++ (if is_truthy t && not (same_value py (value_of t) (value_of r))
          then said (value_of t) ∷ []
          else [])

  abbrev pub shown_message : Fields → List Shown
  shown_message msg =
      shown_texts (get "reasoning_content" msg) (get "content" msg)
      ++ map shown_call (list_or_none (dicts_of (get "tool_calls" msg)))

  abbrev pub shown_choices : List Fields → List Shown
  shown_choices [] = []
  shown_choices (choice ∷ rest) =
      shown_message (fields_or_none (mapping (get "message" choice))) ++ shown_choices rest
