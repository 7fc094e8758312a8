-- ===== src/Responses/Stream.antt =====
-- responses.py, `_chat_stream_to_responses_stream`: the output items of one response and the events about them.
-- `sent` grows where the code yields.
use Prim.Native.String.{◌++◌ as ◌+++◌}
use buddy2api.Prelude.{
  ℕ, suc, true, false, Option, none, some, List, [], ◌∷◌, ◌++◌, String, length, if◌then◌else◌,
}
use buddy2api.Prelude.Slots.{get_elem?, put_at, set_key}
use buddy2api.History.{Json, null}
use buddy2api.Responses.{
  Python, Kind, reasoning, text, tool, ItemStatus, in_progress, completed, Item, ItemState, Body,
  item_added, part_added, delta, text_done, part_done, item_done, StreamEvent,
}

-- `(choice_index, tool_index)`
abbrev pub CallKey : Type 0
CallKey = String × String

-- The generator's variables that events are about. `item_states` and `output_items` grow together, and the three dicts point into them by the output index.
pub record Output : Type 0 where
  pub seq : ℕ  -- the number of the next event
  pub sent : List StreamEvent
  pub ids : ℕ  -- the calls of `os.urandom` so far
  pub item_states : List ItemState
  pub reasoning_states : String → Option ℕ
  pub text_states : String → Option ℕ
  pub tool_states : List (CallKey × ℕ)

abbrev pub yield_event : Body → Output → Output
yield_event b o = record o {
  seq = suc o.seq;
  sent = o.sent ++ record { sequence_number = o.seq; body = b } ∷ [];
}

-- The closing events of the item's own kind.
unfoldable pub close_parts : Kind → ItemStatus → String → ℕ → String → Output → Output
close_parts reasoning status id i t o =
    yield_event (part_done reasoning id i t) (yield_event (text_done reasoning id i t) o)
close_parts text status id i t o =
    yield_event (part_done text id i t) (yield_event (text_done text id i t) o)
close_parts tool completed id i t o = yield_event (text_done tool id i t) o
close_parts tool _ id i t o = o

unfoldable pub close_open : ℕ → ItemStatus → Item → Output → Output
unfolding close_parts
close_open i status x o =
    let y : Item = record x { status = status } in
    yield_event (item_done i y) (
      close_parts x.kind status x.id i x.text
        (record o { item_states = put_at i (record { item = y; closed = true }) o.item_states }))

unfoldable pub close_state : ℕ → ItemStatus → Option ItemState → Output → Output
unfolding close_open
close_state i status none o = o
close_state i status (some s) o = if s.closed then o else close_open i status s.item o

unfoldable pub close_item : ℕ → ItemStatus → Output → Output
unfolding close_state
close_item i status o = close_state i status (get_elem? o.item_states i) o

-- `reasoning_states.pop(choice_index, None)` and `text_states.pop(choice_index, None)`, with the closing of what they return.
unfoldable pub release_reasoning : String → Option ℕ → Output → Output
unfolding close_item
release_reasoning c none o = o
release_reasoning c (some i) o =
    close_item i completed (record o { reasoning_states = set_key o.reasoning_states c none })

unfoldable pub release_text : String → Option ℕ → Output → Output
unfolding close_item
release_text c none o = o
release_text c (some i) o =
    close_item i completed (record o { text_states = set_key o.text_states c none })

-- `output_items.append(item)`, `item_states.append(state)` and the event of it.
abbrev pub add_item : Item → Output → Output
add_item x o =
    yield_event (item_added (length o.item_states) x)
      (record o { item_states = o.item_states ++ record { item = x; closed = false } ∷ [] })

abbrev pub new_item : Kind → String → Json → String → Item
new_item k id call_id name = record {
  kind = k;
  id = id;
  call_id = call_id;
  name = name;
  text = "";
  status = in_progress;
}

-- `state["text"] += t`, or `state["arguments"] += t`, with the delta event.
abbrev pub longer : String → ItemState → ItemState
longer t s = record s { item = record (s.item) { text = s.item.text +++ t } }

unfoldable pub extend : ℕ → String → Option ItemState → Output → Output
extend i t none o = o
extend i t (some s) o =
    yield_event (delta s.item.kind s.item.id i t)
      (record o { item_states = put_at i (longer t s) o.item_states })

unfoldable pub append_text : ℕ → String → Output → Output
unfolding extend
append_text i t o = extend i t (get_elem? o.item_states i) o

-- `state["item"]["name"] = name`
abbrev pub named : String → ItemState → ItemState
named name s = record s { item = record (s.item) { name = name } }

unfoldable pub rename : ℕ → (String → String) → Option ItemState → Output → Output
rename i f none o = o
rename i f (some s) o = record o { item_states = put_at i (named (f s.item.name) s) o.item_states }

module _ (py : Python) where
  -- `_gen_item_id`
  abbrev pub gen_item_id : String → ℕ → String
  gen_item_id kind n = kind +++ ("_" +++ py.urandom n)

  -- The state of the choice's reasoning, new where there is none.
  unfoldable pub reasoning_state : String → Option ℕ → Output → ℕ × Output
  unfolding release_text
  reasoning_state c (some i) o = (i, o)
  reasoning_state c none o =
      let p = release_text c (o.text_states c) o in
      let i = length p.item_states in
      let x = new_item reasoning (gen_item_id "rsn" p.ids) null "" in
      let q : Output = record p {
        ids = suc p.ids;
        reasoning_states = set_key p.reasoning_states c (some i);
      } in
      (i, yield_event (part_added reasoning x.id i) (add_item x q))

  unfoldable pub text_state : String → Option ℕ → Output → ℕ × Output
  unfolding release_reasoning
  text_state c (some i) o = (i, o)
  text_state c none o =
      let p = release_reasoning c (o.reasoning_states c) o in
      let i = length p.item_states in
      let x = new_item text (gen_item_id "msg" p.ids) null "" in
      let q : Output = record p {
        ids = suc p.ids;
        text_states = set_key p.text_states c (some i);
      } in
      (i, yield_event (part_added text x.id i) (add_item x q))

  unfoldable pub say_reasoning : String → String → Output → Output
  unfolding reasoning_state append_text
  say_reasoning c t o = let r = reasoning_state c (o.reasoning_states c) o in append_text r.0 t r.1

  unfoldable pub say_text : String → String → Output → Output
  unfolding text_state append_text
  say_text c t o = let r = text_state c (o.text_states c) o in append_text r.0 t r.1

  -- What the first part of a call closes.
  unfoldable pub before_call : String → Output → Output
  unfolding release_reasoning release_text
  before_call c o =
      let p = release_reasoning c (o.reasoning_states c) o in release_text c (p.text_states c) p

  -- The item of a new call; `call_id` is what the upstream gave, `none` where it has to be made.
  unfoldable pub add_call : CallKey → Option Json → String → Output → Output
  add_call key (some id) name o =
      let i = length o.item_states in
      add_item (new_item tool (gen_item_id "fc" o.ids) id name)
        (record o { ids = suc o.ids; tool_states = o.tool_states ++ (key, i) ∷ [] })
  add_call key none name o =
      let i = length o.item_states in
      let id : Json = Json.str (gen_item_id "call" o.ids) in
      add_item (new_item tool (gen_item_id "fc" (suc o.ids)) id name)
        (record o { ids = suc (suc o.ids); tool_states = o.tool_states ++ (key, i) ∷ [] })
