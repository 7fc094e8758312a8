-- ===== src/ContextBudget/Policy.antt =====
-- context_budget.py, `dispatch_with_context_policy`: the cut before sending and the one retry after a rejection.
-- A streamed answer is given by its chunks, and is read to its end; the closing of streams is left out.
use Prim.Native.String.{◌++◌ as ◌+++◌}
use buddy2api.Prelude.{
  ℕ, Bool, true, false, ◌&&◌, Option, none, some, List, [], ◌∷◌, ◌++◌, String, length, ltb, leb,
  ◌==◌, if◌then◌else◌,
}
use buddy2api.History.{Json, obj, Fields, estimate_prompt_tokens}
use buddy2api.ContextBudget.{
  Builtins, Config, channel_input_budget, input_limit, prepare, recovery_payload,
}
use buddy2api.ContextBudget.Guard.{
  of_error, of_too_long, of_html, exceeded, not_a_stream, Piece, event, SseText, chunk_text,
  sse_payloads, chunk_has_content, only_errors,
}
use buddy2api.ContextBudget.Rejection.{is_context_rejection, detail_html}

-- `too_long` and `html_page` are the errors of `readable_error`, with the flag and the status that they name.
pub data Result : Type 0 where
  json : Json → Result
  stream : List Piece → Result
  error : ℕ → Json → Result
  too_long : Bool → Result
  html_page : ℕ → Result

-- The provider's answer to a payload, after those that it was sent before.
abbrev pub Send : Type 0
Send = List Fields → Fields → Result

abbrev pub classify : Builtins → Bool → Bool → ℕ → ℕ → Json → Result
classify py true trimmed tokens status detail = too_long trimmed
classify py false trimmed tokens status detail =
    if detail_html py detail
    then html_page (if status == 0 then 502 else status)
    else error status detail

unfoldable pub finalize : Builtins → Result → Bool → ℕ → Result
unfolding is_context_rejection detail_html
finalize py (error status detail) trimmed tokens =
    classify py (is_context_rejection py status detail tokens) trimmed tokens status detail
finalize py result trimmed tokens = result

abbrev pub retry_with : Builtins → Send → Bool → Fields → Fields × Bool → Result × List Fields
retry_with py send already payload (trimmed, false) = (too_long already, payload ∷ [])
retry_with py send already payload (trimmed, true) = (
  finalize py (send (payload ∷ []) trimmed) true (estimate_prompt_tokens trimmed),
  payload ∷ trimmed ∷ [],
)

abbrev pub recover_error : Builtins → Send → Bool → Fields → ℕ → Json → Bool → Result × List Fields
recover_error py send already payload status detail true =
    retry_with py send already payload (recovery_payload payload)
recover_error py send already payload status detail false = (
  if detail_html py detail
      then html_page (if status == 0 then 502 else status)
      else error status detail,
  payload ∷ [],
)

-- `_yield_result_chunks`
abbrev pub yield_result : Result → List Piece
yield_result (stream chunks) = chunks
yield_result (error status (obj d)) = event (of_error d) ∷ []
yield_result (error status _) = event exceeded ∷ []
yield_result (too_long trimmed) = event (of_too_long trimmed) ∷ []
yield_result (html_page status) = event (of_html status) ∷ []
yield_result (json body) = event not_a_stream ∷ []

-- What the consumer of a guarded stream reads, and the payloads that were sent in all.
abbrev pub Read : Type 0
Read = List Piece × List Fields

module _ (py : Builtins) (st : SseText) (send : Send) (already : Bool) (payload : Fields) where
  abbrev pub retry_stream : Result × List Fields → Read
  retry_stream (result, sent) = (yield_result result, sent)

  -- Payloads of errors alone, the last of which is given: a retry, an error of its own, or the end of the watch.
  abbrev pub judge_errors : Option Fields → Read → Read → Read
  judge_errors none go_on stop = go_on
  judge_errors (some d) go_on stop =
      if is_context_rejection py 502 (obj d) (estimate_prompt_tokens payload)
      then retry_stream (retry_with py send already payload (recovery_payload payload))
      else if detail_html py (obj d)
      then (event (of_html 502) ∷ [], payload ∷ [])
      else stop

  -- The loop of `_guard_stream_chunks` with the chunks that it holds back and their text.
  unfoldable pub guard_chunks : List Piece → String → List Piece → Read
  unfolding sse_payloads chunk_has_content is_context_rejection detail_html recovery_payload
      finalize
  guard_chunks buffered text [] = (buffered, payload ∷ [])
  guard_chunks buffered text (c ∷ chunks) =
      let held = buffered ++ c ∷ [] in
      let text' = text +++ chunk_text py st c in
      let rest = guard_chunks held text' chunks in
      let all : Read = (held ++ chunks, payload ∷ []) in
      let go_on = if leb 4 (length held) then all else rest in
      if chunk_has_content py st text'
      then all
      else judge_errors (only_errors (sse_payloads py st text')) go_on all

-- `_recover` on the first answer, with the payloads that were sent in all.
unfoldable pub recover : Builtins → SseText → Send → Bool → Fields → Result → Result × List Fields
unfolding finalize recovery_payload is_context_rejection detail_html guard_chunks
recover py st send already payload (error status detail) =
    recover_error py send already payload status detail
      (is_context_rejection py status detail (estimate_prompt_tokens payload))
recover py st send already payload (stream chunks) =
    let (read, sent) = guard_chunks py st send already payload [] "" chunks in (stream read, sent)
recover py st send already payload result = (result, payload ∷ [])

abbrev pub send_prepared :
    Builtins → SseText → ℕ → Send → Fields → Fields × Bool → Result × List Fields
send_prepared py st budget send payload (dispatch, pretrimmed) =
    if pretrimmed
      && (ltb 0 budget && ltb (input_limit py payload budget) (estimate_prompt_tokens dispatch))
    then (too_long true, [])
    else recover py st send pretrimmed dispatch (send [] dispatch)

unfoldable pub dispatch_with_context_policy :
    Builtins → SseText → Config → Send → String → Fields → Result × List Fields
unfolding prepare recover input_limit channel_input_budget
dispatch_with_context_policy py st cfg send channel payload =
    let budget = channel_input_budget py cfg channel in
    send_prepared py st budget send payload (prepare py budget payload)
