-- ===== src/Responses/Ending.antt =====
-- responses.py, `_chat_stream_to_responses_stream`: how a response ends, and the whole stream.
use buddy2api.Prelude.{
  ℕ, zero, suc, Bool, true, false, not, ◌&&◌, ◌||◌, Option, none, some, List, [], ◌∷◌, map, String,
  str_eq, if◌then◌else◌, length,
}
use buddy2api.Prelude.Texts.{is_empty, str_in}
use buddy2api.Prelude.Slots.{get_elem?}
use buddy2api.History.{Json, plain, obj, Fields, no_fields, field, get}
use buddy2api.Responses.{
  Python, ItemStatus, in_progress, completed, incomplete, failed, Item, ItemState, StreamError,
  Response, created, started, terminal,
}
use buddy2api.Responses.Stream.{CallKey, Output, yield_event, close_item}
use buddy2api.Responses.Chunks.{Upstream, Session, take_stream}
use buddy2api.Responses.Reading.{or_value, mapping}

-- What the generator is given, and what it fixes before its first event.
pub record Setup : Type 0 where
  pub id : String
  pub created_at : ℕ
  pub model : Json
  pub request_fields : Fields

-- `terminal_status`, `incomplete_reason` and `stream_error`
pub record Terminal : Type 0 where
  pub status : ItemStatus
  pub reason : Option String
  pub error : Option StreamError

abbrev pub values : List (String × String) → List String
values [] = []
values ((c, r) ∷ rest) = r ∷ values rest

abbrev pub keys : List (String × String) → List String
keys [] = []
keys ((c, r) ∷ rest) = c ∷ keys rest

abbrev pub is_nil {ℓ} : {A : Type ℓ} → List A → Bool
is_nil [] = true
is_nil (x ∷ xs) = false

-- `bool(seen_choices.difference(finished_choices))`
abbrev pub has_unfinished : List String → List String → Bool
has_unfinished [] finished = false
has_unfinished (c ∷ cs) finished = not (str_in c finished) || has_unfinished cs finished

-- A choice that finished for a reason of its own without anything to show.
abbrev pub has_empty : List (String × String) → List String → Bool
has_empty [] productive = false
has_empty ((c, r) ∷ rest) productive =
    (not (str_in r ("length" ∷ "content_filter" ∷ [])) && not (str_in c productive))
    || has_empty rest productive

abbrev pub failed_with : String → String → Terminal
failed_with code message = record {
  status = failed;
  reason = none;
  error = some (record { code = code; message = message });
}

abbrev pub ended_early : Session → Bool
ended_early s =
    let unfinished = has_unfinished s.seen_choices (keys s.finished_choices) in
    (not s.saw_done && (is_nil s.seen_choices || unfinished))
    || (s.saw_done && (not (is_nil s.finished_choices) && unfinished))

abbrev pub shows_nothing : Session → Bool
shows_nothing s =
    is_nil s.seen_choices
    || (is_nil s.out.item_states || has_empty s.finished_choices s.productive_choices)

abbrev pub of_reasons : Session → Terminal
of_reasons s =
    if str_in "length" (values s.finished_choices)
    then record { status = incomplete; reason = some "max_output_tokens"; error = none }
    else if str_in "content_filter" (values s.finished_choices)
    then record { status = incomplete; reason = some "content_filter"; error = none }
    else if ended_early s
    then failed_with "upstream_stream_ended" "The upstream stream ended before a terminal event."
    else if shows_nothing s
    then failed_with "empty_upstream_response"
        "The upstream response contained no displayable content or tool call."
    else record { status = completed; reason = none; error = none }

unfoldable pub of_stream : Option StreamError → Session → Terminal
of_stream (some e) s = record { status = failed; reason = none; error = some e }
of_stream none s = of_reasons s

abbrev pub is_object : Option Json → Bool
is_object (some (obj d)) = true
is_object _ = false

abbrev pub same_status : ItemStatus → ItemStatus → Bool
same_status in_progress in_progress = true
same_status completed completed = true
same_status incomplete incomplete = true
same_status failed failed = true
same_status _ _ = false

-- The codes of `_RESPONSE_ERROR_CODES`
abbrev pub response_error_codes : List String
response_error_codes =
    "server_error" ∷ "rate_limit_exceeded" ∷ "invalid_prompt" ∷ "vector_store_timeout"
    ∷ "invalid_image" ∷ "invalid_image_format" ∷ "invalid_base64_image" ∷ "invalid_image_url"
    ∷ "image_too_large" ∷ "image_too_small" ∷ "image_parse_error" ∷ "image_content_policy_violation"
    ∷ "invalid_image_mode" ∷ "image_file_too_large" ∷ "unsupported_image_media_type"
    ∷ "empty_image_file" ∷ "failed_to_download_image" ∷ "image_file_not_found" ∷ []

-- `_response_error` on an error of the stream, which has a code, a message and no type.
abbrev pub or_text : String → String → String
or_text s default = if is_empty s then default else s

abbrev pub known_code : String → String
known_code code =
    let c = if str_eq code "local_rate_limit" then "rate_limit_exceeded" else code in
    if str_in c response_error_codes then c else "server_error"

unfoldable pub response_error : StreamError → StreamError
response_error e = record {
  code = known_code (or_text e.code "server_error");
  message = or_text e.message "The upstream response failed.";
}

abbrev pub error_of : Option StreamError → Option StreamError
error_of none = none
error_of (some e) = some (response_error e)

abbrev pub output_of : List ItemState → List Item
output_of items = map (λ (s : ItemState). s.item) items

-- `_responses_usage`; `none` where it raises: at `+`, or at `.get` of details that are no dict.
abbrev pub get_or : String → Fields → Json → Json
get_or key d default = elim (get key d) [ none ↦ default | some j ↦ j ]

abbrev pub detail_of : String → Option Fields → Option Fields
detail_of name none = none
detail_of name (some d) = some (field name (get_or name d (plain "0")) no_fields)

abbrev pub details_of : String → String → Fields → Option Fields
details_of key other usage =
    mapping (some (or_value (get key usage) (or_value (get other usage) (obj no_fields))))

abbrev pub usage_of :
    Json → Json → Option Json → Option Fields → Option Fields → Fields → Option Fields
usage_of input output (some total) (some i) (some o) usage = some (
    field "input_tokens" input (
      field "input_tokens_details" (obj i) (
        field "output_tokens" output (
          field "output_tokens_details" (obj o)
            (field "total_tokens" (get_or "total_tokens" usage total) no_fields)))))
usage_of input output _ _ _ usage = none

abbrev pub invalid_arguments : Terminal
invalid_arguments =
    failed_with "invalid_tool_arguments"
      "The upstream returned incomplete or invalid JSON tool arguments."

-- The loop over `item_states`, which stand in the order of their output index.
unfoldable pub close_from : ℕ → ℕ → ItemStatus → Output → Output
unfolding close_item
close_from zero i status o = o
close_from (suc n) i status o = close_from n (suc i) status (close_item i status o)

abbrev pub item_status : ItemStatus → ItemStatus
item_status status = if same_status status completed then completed else incomplete

abbrev pub snapshot_started : Setup → Response
snapshot_started setup = record {
  id = setup.id;
  created_at = setup.created_at;
  status = in_progress;
  model = setup.model;
  output = [];
  error = none;
  incomplete_details = none;
  usage = none;
  request_fields = setup.request_fields;
}

abbrev pub snapshot_ended : Setup → Session → Terminal → List ItemState → Fields → Response
snapshot_ended setup s out items usage = record {
  id = setup.id;
  created_at = setup.created_at;
  status = out.status;
  model = s.response_model;
  output = output_of items;
  error = error_of out.error;
  incomplete_details = out.reason;
  usage = some usage;
  request_fields = setup.request_fields;
}

-- The last event; where the usage raises, the generator does, and there is none.
unfoldable pub send_terminal : Setup → Session → Terminal → Option Fields → Output → Output
send_terminal setup s out none o = o
send_terminal setup s out (some usage) o =
    yield_event (terminal (snapshot_ended setup s out o.item_states usage)) o

abbrev pub start_output : Setup → Output
start_output setup =
    let o : Output = record {
      seq = 0;
      sent = [];
      ids = 0;
      item_states = [];
      reasoning_states = λ c. none;
      text_states = λ c. none;
      tool_states = [];
    } in
    yield_event (started (snapshot_started setup))
      (yield_event (created (snapshot_started setup)) o)

abbrev pub start_session : Setup → Session
start_session setup = record {
  out = start_output setup;
  response_model = setup.model;
  usage = no_fields;
  seen_choices = [];
  finished_choices = [];
  productive_choices = [];
  saw_done = false;
  stream_error = none;
}

module _ (py : Python) where
  unfoldable pub responses_usage : Fields → Option Fields
  responses_usage usage =
      let input = get_or "prompt_tokens" usage (get_or "input_tokens" usage (plain "0")) in
      let output = get_or "completion_tokens" usage (get_or "output_tokens" usage (plain "0")) in
      usage_of input output (py.add input output)
        (detail_of "cached_tokens"
          (details_of "prompt_tokens_details" "input_tokens_details" usage))
        (detail_of "reasoning_tokens"
          (details_of "completion_tokens_details" "output_tokens_details" usage))
        usage

  -- The calls that are still open need a name and arguments that are an object.
  abbrev pub is_bad_call : Option ItemState → Bool
  is_bad_call none = false
  is_bad_call (some s) =
      not s.closed && (is_empty s.item.name || not (is_object (py.loads s.item.text)))

  abbrev pub has_bad_call : List (CallKey × ℕ) → List ItemState → Bool
  has_bad_call [] items = false
  has_bad_call ((key, i) ∷ rest) items = is_bad_call (get_elem? items i) || has_bad_call rest items

  unfoldable pub outcome : Session → Terminal
  unfolding of_stream
  outcome s =
      let first = of_stream s.stream_error s in
      if same_status first.status completed && has_bad_call s.out.tool_states s.out.item_states
      then invalid_arguments
      else first

  unfoldable pub end_stream : Setup → Session → Output
  unfolding outcome close_from send_terminal responses_usage
  end_stream setup s =
      let out = outcome s in
      send_terminal setup s out (responses_usage s.usage)
        (close_from (length s.out.item_states) 0 (item_status out.status) s.out)

  unfoldable pub chat_stream_to_responses_stream : Setup → List Upstream → Output
  unfolding take_stream end_stream
  chat_stream_to_responses_stream setup data_stream =
      end_stream setup (take_stream py data_stream (start_session setup))
