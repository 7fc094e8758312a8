-- ===== src/Responses/Chunks.antt =====
-- responses.py, `_chat_stream_to_responses_stream`: the loop over the chunks of the upstream.
-- Raising and breaking out of the loops both set `stream_error`, which stops them all.
use Prim.Native.String.{[] as empty, ◌++◌ as ◌+++◌}
use buddy2api.Prelude.{
  ℕ, Bool, true, false, not, ◌&&◌, ◌||◌, Option, none, some, List, [], ◌∷◌, String, str_eq, length,
  if◌then◌else◌,
}
use buddy2api.Prelude.Texts.{strip, is_empty}
use buddy2api.Prelude.Slots.{get_elem?}
use buddy2api.History.{Json, null, str, obj, Fields, get, is_text, is_truthy}
use buddy2api.ContextBudget.Rejection.{prefix}
use buddy2api.Responses.{Python, ItemState, StreamError}
use buddy2api.Responses.Stream.{
  CallKey, Output, append_text, rename, say_reasoning, say_text, before_call, add_call,
}
use buddy2api.Responses.Reading.{
  add_to, finish_choice, update_all, or_value, find_call, has_open_tool, is_some, grow_name,
  elements, mapping, value_of, as_text, index_of,
}

-- What the data stream gives next: an event's text, or an exception (UnicodeDecodeError, TypeError and ValueError apart from the others) with its text.
pub data Upstream : Type 0 where
  line decoding other : String → Upstream

pub record Session : Type 0 where
  pub out : Output
  pub response_model : Json
  pub usage : Fields
  pub seen_choices : List String
  pub finished_choices : List (String × String)
  pub productive_choices : List String
  pub saw_done : Bool
  pub stream_error : Option StreamError

abbrev pub with_out : (Output → Output) → Session → Session
with_out f s = record s { out = f s.out }

abbrev pub fail_with : String → String → Session → Session
fail_with code message s = record s {
  stream_error = some (record { code = code; message = message });
}

abbrev pub fail_decoding : String → Session → Session
fail_decoding exc s =
    fail_with "upstream_stream_error" ("Unable to decode the upstream SSE stream: " +++ exc) s

abbrev pub fail_other : String → Session → Session
fail_other exc s = fail_with "upstream_stream_error" ("The upstream SSE stream failed: " +++ exc) s

-- The rest of the loop body, which an error leaves out.
abbrev pub go_on : Option StreamError → (Session → Session) → Session → Session
go_on none f s = f s
go_on (some e) f s = s

abbrev pub unless_failed : (Session → Session) → Session → Session
unless_failed f s = go_on s.stream_error f s

module _ (py : Python) where
  -- The reasoning of a delta.
  unfoldable pub take_reasoning : String → String → Session → Session
  take_reasoning c t s =
      if is_some (s.out.text_states c) || has_open_tool c s.out.tool_states s.out.item_states
      then fail_with "invalid_upstream_event"
          "The upstream emitted reasoning after answer or tool output had already started." s
      else record s {
        productive_choices = add_to c s.productive_choices;
        out = say_reasoning py c t s.out;
      }

  unfoldable pub reasoning_part : String → Option Json → Session → Session
  unfolding take_reasoning
  reasoning_part c r s = if is_truthy r then take_reasoning c (as_text py (value_of r)) s else s

  -- Is the content a copy of the reasoning, of this delta or of the choice so far?
  abbrev pub same_as_item : Option Json → Option ItemState → Bool
  same_as_item t none = false
  same_as_item t (some s) = is_text t s.item.text

  abbrev pub same_as_state : Option Json → Option ℕ → List ItemState → Bool
  same_as_state t none items = false
  same_as_state t (some i) items = same_as_item t (get_elem? items i)

  unfoldable pub is_copy : String → Option Json → Option Json → Output → Bool
  is_copy c r t o =
      (is_truthy r && is_text t (as_text py (value_of r)))
      || same_as_state t (o.reasoning_states c) o.item_states

  unfoldable pub text_part : String → Option Json → Option Json → Session → Session
  unfolding is_copy
  text_part c r t s =
      if is_truthy t && not (is_copy c r t s.out)
      then record s {
        productive_choices = add_to c s.productive_choices;
        out = say_text py c (as_text py (value_of t)) s.out;
      }
      else s

  -- A name and a part of the arguments for the call at an index.
  abbrev pub name_call : ℕ → Option Json → Output → Output
  name_call i name o =
      if is_truthy name
      then rename i (grow_name (as_text py (value_of name))) (get_elem? o.item_states i) o
      else o

  abbrev pub dumped : Json → String
  dumped (str s) = s
  dumped j = py.dumps j

  abbrev pub argue : ℕ → Option Json → Output → Output
  argue i none o = o
  argue i (some null) o = o
  argue i (some (str empty)) o = o
  argue i (some j) o = append_text i (dumped j) o

  unfoldable pub fill_call : Fields → ℕ → Output → Output
  fill_call fn i o = argue i (get "arguments" fn) (name_call i (get "name" fn) o)

  abbrev pub given_id : Option Json → Option Json
  given_id id = if is_truthy id then id else none

  -- The state of the call, new where there is none; then what this part says of it.
  unfoldable pub call_part : CallKey → Fields → Fields → Option ℕ → Output → Output
  unfolding fill_call
  call_part key tc fn (some i) o = fill_call fn i o
  call_part key tc fn none o =
      let p = before_call py key.0 o in
      let i = length p.item_states in
      fill_call fn i (
        add_call py key (given_id (get "id" tc)) (as_text py (or_value (get "name" fn) (str ""))) p)

  -- A function that is no dict raises after the open items of the choice are closed.
  unfoldable pub raise_call : CallKey → Option ℕ → Output → Output
  raise_call key (some i) o = o
  raise_call key none o = before_call py key.0 o

  unfoldable pub tool_part : String → Fields → Session → Session
  unfolding call_part raise_call
  tool_part c tc s =
      let key : CallKey = (c, index_of py (get "index" tc)) in
      let p : Session = record s { productive_choices = add_to c s.productive_choices } in
      elim (mapping (get "function" tc)) [
        | some fn ↦ with_out (call_part key tc fn (find_call key s.out.tool_states)) p
        | none ↦
            fail_other (py.message "get" (value_of (get "function" tc)))
              (with_out (raise_call key (find_call key s.out.tool_states)) p)
      ]

  unfoldable pub tool_parts : String → List Json → Session → Session
  unfolding tool_part
  tool_parts c [] s = s
  tool_parts c (obj tc ∷ tcs) s = unless_failed (tool_parts c tcs) (tool_part c tc s)
  tool_parts c (_ ∷ tcs) s = tool_parts c tcs s

  unfoldable pub call_parts : String → Option Json → Session → Session
  unfolding tool_parts
  call_parts c calls s = elim (elements calls) [
    | some tcs ↦ tool_parts c tcs s
    | none ↦ fail_decoding (py.message "iter" (value_of calls)) s
  ]

  unfoldable pub delta_parts : String → Fields → Session → Session
  unfolding reasoning_part text_part call_parts
  delta_parts c d s =
      let r = get "reasoning_content" d in
      unless_failed (λ p. call_parts c (get "tool_calls" d) (text_part c r (get "content" d) p))
        (reasoning_part c r s)

  -- `seen_choices.add` and `finished_choices[choice_index] = str(finish_reason)`
  abbrev pub note_choice : String → Option Json → Session → Session
  note_choice c reason s = record s {
    seen_choices = add_to c s.seen_choices;
    finished_choices =
        if is_truthy reason
        then finish_choice c (as_text py (value_of reason)) s.finished_choices
        else s.finished_choices;
  }

  unfoldable pub take_choice : Fields → Session → Session
  unfolding delta_parts
  take_choice choice s =
      let c = index_of py (get "index" choice) in
      let p = note_choice c (get "finish_reason" choice) s in
      elim (mapping (get "delta" choice)) [
        | some d ↦ delta_parts c d p
        | none ↦ fail_other (py.message "get" (value_of (get "delta" choice))) p
      ]

  unfoldable pub take_choices : List Json → Session → Session
  unfolding take_choice
  take_choices [] s = s
  take_choices (obj choice ∷ rest) s = unless_failed (take_choices rest) (take_choice choice s)
  take_choices (_ ∷ rest) s = take_choices rest s

  -- The error that a chunk carries.
  unfoldable pub upstream_error : Json → Session → Session
  upstream_error (obj e) s =
      fail_with
        (as_text py (or_value (get "code" e) (or_value (get "type" e) (str "upstream_error"))))
        (prefix 500 (as_text py (or_value (get "message" e) (str "The upstream stream failed.")))) s
  upstream_error j s = fail_with "upstream_error" (prefix 500 (as_text py j)) s

  abbrev pub pairs_of : Json → Option Fields
  pairs_of (obj d) = some d
  pairs_of j = py.pairs j

  unfoldable pub note_usage : Option Json → Session → Session
  note_usage u s =
      if is_truthy u
      then elim (pairs_of (value_of u)) [
        | some d ↦ record s { usage = update_all d s.usage }
        | none ↦ fail_decoding (py.message "update" (value_of u)) s
      ]
      else s

  unfoldable pub choices_of : Option Json → Session → Session
  unfolding take_choices
  choices_of choices s = elim (elements choices) [
    | some cs ↦ take_choices cs s
    | none ↦ fail_decoding (py.message "iter" (value_of choices)) s
  ]

  unfoldable pub take_fields : Fields → Session → Session
  unfolding upstream_error note_usage choices_of
  take_fields chunk s =
      if is_truthy (get "error" chunk)
      then upstream_error (value_of (get "error" chunk)) s
      else unless_failed (choices_of (get "choices" chunk)) (
          note_usage (get "usage" chunk)
            (record s { response_model = or_value (get "model" chunk) s.response_model }))

  unfoldable pub take_chunk : Option Json → Session → Session
  unfolding take_fields
  take_chunk none s =
      fail_with "invalid_upstream_event" "The upstream returned a malformed SSE JSON event." s
  take_chunk (some (obj chunk)) s = take_fields chunk s
  take_chunk (some j) s =
      fail_with "invalid_upstream_event" "The upstream returned a non-object SSE event." s

  -- The loop over the data stream.
  unfoldable pub take_stream : List Upstream → Session → Session
  unfolding take_chunk
  take_stream [] s = s
  take_stream (Upstream.decoding exc ∷ rest) s = fail_decoding exc s
  take_stream (Upstream.other exc ∷ rest) s = fail_other exc s
  take_stream (Upstream.line t ∷ rest) s =
      let data_str = strip t in
      elim (is_empty data_str) [
        | true ↦ take_stream rest s
        | false ↦ elim (str_eq data_str "[DONE]") [
          | true ↦ record s { saw_done = true }
          | false ↦ unless_failed (take_stream rest) (take_chunk (py.loads data_str) s)
        ]
      ]
