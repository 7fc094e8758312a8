-- ===== src/Router/Walk.antt =====
-- router.py, `_walk_account_queue` and its callers: the failover along the queue.
-- The trace of a request lists what happened, oldest first; what a dispatch gives may depend on all of it.
-- The texts of answers stand for their JSON; the rewriting of their `model` field is left out.
use buddy2api.Prelude.{
  ℕ, Bool, true, false, ◌&&◌, ◌||◌, Option, none, some, List, [], ◌∷◌, ◌++◌, String, str_eq,
  if◌then◌else◌,
}
use buddy2api.Router.{ApiKey, Gateway, provider_of}
use buddy2api.Router.Admission.{is_none}
use buddy2api.Router.Queue.{Hop, account_queue}

-- The JSON after `data:` of a line: nothing or the end mark, not JSON, an object with an `error` object that has a code and a text, or else.
pub data Payload : Type 0 where
  silent broken other : Payload
  error_object : String → String → Payload

-- `begins` says whether the line begins with `data:`, and `begins_stripped` whether it does so after its leading spaces.
pub record Line : Type 0 where
  pub begins_stripped : Bool
  pub begins : Bool
  pub payload : Payload

-- A chunk as text, the bytes that are no UTF-8 replaced; `is_utf8` says whether there were none of these.
pub record Chunk : Type 0 where
  pub is_utf8 : Bool
  pub lines : List Line

pub data Outcome : Type 0 where
  -- an Exception, and whether a stream was open
  raised : Bool → String → Outcome
  -- another BaseException, such as a cancellation
  interrupted : Bool → String → Outcome
  json : String → Outcome
  -- an error result with its status
  failed : ℕ → String → Outcome
  -- a stream by its first chunk, `none` where it ends at once
  stream : Option Chunk → Outcome

-- The errors that the walk itself makes have a case each.
pub data Error : Type 0 where
  upstream : ℕ → String → Error
  hop_raised : String → String → Error
  account_failed : Hop → Error
  local_limit : String → Error
  no_account : Error

pub data Answer : Type 0 where
  answer : String → Answer
  streaming : Hop → Answer
  error : Error → Answer
  raises : String → Answer
  -- a UnicodeDecodeError, with the stream of this hop left open
  leaves_open : Hop → Answer

pub data Event : Type 0 where
  dispatched opened closed noted : Hop → Event
  reserved : Event

abbrev pub is_error_line : Line → Bool
is_error_line line =
    line.begins_stripped && (elim line.payload [ error_object code text ↦ true | _ ↦ false ])

abbrev pub any_error : List Line → Bool
any_error [] = false
any_error (line ∷ lines) = is_error_line line || any_error lines

-- `_stream_first_is_error`
unfoldable pub stream_first_is_error : Option Chunk → Bool
stream_first_is_error none = true
stream_first_is_error (some chunk) = any_error chunk.lines

abbrev pub limit_of : Bool → Payload → Error → Error
limit_of true (error_object code text) last =
    if str_eq code "local_rate_limit" then local_limit text else last
limit_of b payload last = last

abbrev pub limit_lines : List Line → Error → Error
limit_lines [] last = last
limit_lines (line ∷ lines) last = limit_lines lines (limit_of line.begins line.payload last)

unfoldable pub stream_error : Hop → Option Chunk → Error
stream_error hop none = account_failed hop
stream_error hop (some chunk) = limit_lines chunk.lines (account_failed hop)

-- What one hop does to the walk: it ends it, or leaves an error for the next hop.
pub data Step : Type 0 where
  done : Answer → List Event → Step
  next : Error → List Event → Step

-- The chunk of an error is decoded again, strictly and before the stream is closed.
abbrev pub decodes : Option Chunk → Bool
decodes none = true
decodes (some chunk) = chunk.is_utf8

abbrev pub end_error_stream : Hop → Error → Bool → Step
end_error_stream hop e true = next e (dispatched hop ∷ opened hop ∷ closed hop ∷ [])
end_error_stream hop e false = done (leaves_open hop) (dispatched hop ∷ opened hop ∷ [])

abbrev pub stream_step : Hop → Option Chunk → Bool → Step
stream_step hop first true = end_error_stream hop (stream_error hop first) (decodes first)
stream_step hop first false = done (streaming hop) (dispatched hop ∷ opened hop ∷ noted hop ∷ [])

unfoldable pub hop_step : Hop → Outcome → Step
unfolding stream_first_is_error stream_error
hop_step hop (raised false message) = next (hop_raised hop.0 message) (dispatched hop ∷ [])
hop_step hop (raised true message) =
    next (hop_raised hop.0 message) (dispatched hop ∷ opened hop ∷ closed hop ∷ [])
hop_step hop (interrupted false message) = done (raises message) (dispatched hop ∷ [])
hop_step hop (interrupted true message) =
    done (raises message) (dispatched hop ∷ opened hop ∷ closed hop ∷ [])
hop_step hop (json body) = done (answer body) (dispatched hop ∷ noted hop ∷ [])
hop_step hop (failed status body) = next (upstream status body) (dispatched hop ∷ [])
hop_step hop (stream first) = stream_step hop first (stream_first_is_error first)

abbrev pub Dispatch : Type 0
Dispatch = List Event → Hop → Outcome

abbrev pub last_or : Option Error → Error
last_or none = no_account
last_or (some e) = e

-- The loop over the queue.
unfoldable pub walk :
    Gateway → Dispatch → List Hop → List Event → Option Error → Answer × List Event
unfolding hop_step
walk g dispatch [] past last = (error (last_or last), past)
walk g dispatch (hop ∷ queue) past last = elim (is_none (provider_of g hop.0)) [
  | true ↦ walk g dispatch queue past last
  | false ↦ elim (hop_step hop (dispatch past hop)) [
    | done result events ↦ (result, past ++ events)
    | next e events ↦ walk g dispatch queue (past ++ events) (some e)
  ]
]

-- Without failover the provider of the first hop owns the request.
abbrev pub result_of : Hop → Outcome → Answer
result_of hop (raised open_stream message) = raises message
result_of hop (interrupted open_stream message) = raises message
result_of hop (json body) = answer body
result_of hop (failed status body) = error (upstream status body)
result_of hop (stream first) = streaming hop

unfoldable pub walk_account_queue :
    Gateway → Bool → Dispatch → List Hop → List Event → Answer × List Event
unfolding walk
walk_account_queue g true dispatch queue past = walk g dispatch queue past none
walk_account_queue g false dispatch [] past = (raises "IndexError", past)
walk_account_queue g false dispatch (hop ∷ queue) past =
    (result_of hop (dispatch past hop), past ++ dispatched hop ∷ [])

-- `_request_queue`: `refreshed` is the gateway after the expired accounts got their chance.
unfoldable pub request_queue : Gateway → Gateway → Option ApiKey → String → List Hop
unfolding account_queue
request_queue g refreshed key name = elim (account_queue g key (some name)) [
  | [] ↦ account_queue refreshed key (some name)
  | hop ∷ queue ↦ hop ∷ queue
]

-- The reservation of the key's daily quota, `none`, or the error that it raises.
abbrev pub reserve_and_walk :
    Gateway → Bool → Dispatch → Option String → List Hop → Answer × List Event
reserve_and_walk g failover dispatch refusal [] = (error no_account, [])
reserve_and_walk g failover dispatch (some message) queue = (raises message, [])
reserve_and_walk g failover dispatch none queue =
    walk_account_queue g failover dispatch queue (reserved ∷ [])

-- `chat_after_name` with a cleaned name
unfoldable pub chat_after_name :
    Gateway
    → Gateway
    → Option ApiKey
    → Bool
    → Dispatch
    → Option String
    → String
    → Answer × List Event
unfolding request_queue walk_account_queue
chat_after_name g refreshed key failover dispatch refusal name =
    reserve_and_walk refreshed failover dispatch refusal (request_queue g refreshed key name)
