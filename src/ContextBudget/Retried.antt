-- ===== src/ContextBudget/Retried.antt =====
-- context_budget.py, `dispatch_with_context_policy`: what is sent, and how often.
use Prim.Native.String.{◌++◌ as ◌+++◌}
use buddy2api.Prelude.{
  ℕ, ◌≤◌, ◌<◌, ◌≡◌, refl, sym, ap, ◌∙◌, Bool, true, false, Bool-cases, ◌&&◌, inl, inr, ◌⊎◌, Option,
  none, some, List, [], ◌∷◌, ◌++◌, append_assoc, length, leb, String, ltb, if◌then◌else◌, arith,
}
use buddy2api.History.{Json, obj, Fields, estimate_prompt_tokens}
use buddy2api.ContextBudget.{Builtins, input_limit, recovery_payload}
use buddy2api.ContextBudget.Rejection.{is_context_rejection, detail_html}
use buddy2api.ContextBudget.Guard.{
  Piece, SseText, chunk_text, sse_payloads, chunk_has_content, only_errors,
}
use buddy2api.ContextBudget.Policy.{
  Result, json, stream, error, too_long, html_page, Send, Read, judge_errors, guard_chunks,
  retry_with, recover_error, recover, send_prepared,
}

module _ (py : Builtins) (st : SseText) (send : Send) where
  abbrev pub text_all : String → List Piece → String
  text_all text [] = text
  text_all text (c ∷ chunks) = text_all (text +++ chunk_text py st c) chunks

  text_all-append :
      (text : String) (chunks : List Piece) (c : Piece)
      → text_all text (chunks ++ c ∷ []) ≡ text_all text chunks +++ chunk_text py st c
  text_all-append text [] c = refl
  text_all-append text (d ∷ chunks) c = text_all-append (text +++ chunk_text py st d) chunks c

  -- An answer that rejects the length: an error that does, or a stream whose first chunks are errors, the last of which does, without any content.
  abbrev pub Rejects : Fields → Result → Type 0
  Rejects p (error status detail) =
      is_context_rejection py status detail (estimate_prompt_tokens p) ≡ true
  Rejects p (stream chunks) =
      (front : List Piece) × (rest : List Piece) × (d : Fields) × (chunks ≡ front ++ rest)
      × (chunk_has_content py st (text_all "" front) ≡ false)
      × (only_errors (sse_payloads py st (text_all "" front)) ≡ some d)
      × (is_context_rejection py 502 (obj d) (estimate_prompt_tokens p) ≡ true)
  Rejects p _ = ⊥

  -- The payload is sent once, or a second time with the history that `recovery_payload` leaves, after an answer that rejects its length.
  abbrev pub IsRetry : Fields → Result → List Fields → Type 0
  IsRetry p result sent =
      (sent ≡ p ∷ [])
      ⊎ ((q : Fields) × (sent ≡ p ∷ q ∷ []) × Rejects p result × (recovery_payload p ≡ (q, true)))

  retried :
      (already : Bool) (p : Fields) (result : Result) (r : Fields × Bool)
      → recovery_payload p ≡ r
      → Rejects p result
      → IsRetry p result (retry_with py send already p r).1
  retried already p result (q, false) e k = inl refl
  retried already p result (q, true) e k = inr (q, refl, k, e)

  recovered_error :
      (already : Bool) (p : Fields) (status : ℕ) (detail : Json) (b : Bool)
      → is_context_rejection py status detail (estimate_prompt_tokens p) ≡ b
      → IsRetry p (error status detail) (recover_error py send already p status detail b).1
  recovered_error already p status detail true k =
      retried already p (error status detail) (recovery_payload p) refl k
  recovered_error already p status detail false k = inl refl

  module _ (already : Bool) (p : Fields) (whole : List Piece) where
    -- Whether a read of this stream sends once or twice as it should.
    abbrev Guarded : Read → Type 0
    Guarded read = IsRetry p (stream whole) read.1

    either : (b : Bool) (x y : Read) → Guarded x → Guarded y → Guarded (if b then x else y)
    either true x y h k = h
    either false x y h k = k

    judged :
        (front rest : List Piece) (o : Option Fields) (go_on stop : Read)
        → whole ≡ front ++ rest
        → chunk_has_content py st (text_all "" front) ≡ false
        → only_errors (sse_payloads py st (text_all "" front)) ≡ o
        → Guarded go_on
        → Guarded stop
        → Guarded (judge_errors py st send already p o go_on stop)
    judged front rest none go_on stop e f o h k = h
    judged front rest (some d) go_on stop e f o h k =
        elim (Bool-cases (is_context_rejection py 502 (obj d) (estimate_prompt_tokens p))) [
          | inl t ↦ rw t (
              retried already p (stream whole) (recovery_payload p) refl
                (front, rest, d, e, f, o, t))
          | inr n ↦ rw n (either (detail_html py (obj d)) _ stop (inl refl) k)
        ]

    guarded :
        (buffered : List Piece) (text : String) (chunks : List Piece)
        → whole ≡ buffered ++ chunks
        → text ≡ text_all "" buffered
        → Guarded (guard_chunks py st send already p buffered text chunks)
    unfolding guard_chunks
    guarded buffered text [] e t = inl refl
    guarded buffered text (c ∷ chunks) e t =
        let held = buffered ++ c ∷ [] in
        let text' = text +++ chunk_text py st c in
        let same : text' ≡ text_all "" held =
          ap (λ x. x +++ chunk_text py st c) t ∙ sym (text_all-append "" buffered c) in
        let split : whole ≡ held ++ chunks = e ∙ sym (append_assoc buffered (c ∷ []) chunks) in
        let rest = guarded held text' chunks split same in
        elim (Bool-cases (chunk_has_content py st text')) [
          | inl h ↦ rw h (inl refl)
          | inr f ↦ rw f (
              judged held chunks (only_errors (sse_payloads py st text')) _ _ split
                (ap (chunk_has_content py st) (sym same) ∙ f)
                (ap (λ x. only_errors (sse_payloads py st x)) (sym same))
                (either (leb 4 (length held)) _ _ (inl refl) rest) (inl refl))
        ]

  recovered :
      (already : Bool) (p : Fields) (result : Result)
      → IsRetry p result (recover py st send already p result).1
  unfolding recover
  recovered already p (error status detail) =
      recovered_error already p status detail
        (is_context_rejection py status detail (estimate_prompt_tokens p)) refl
  recovered already p (json j) = inl refl
  recovered already p (stream chunks) = guarded already p chunks [] "" chunks refl refl
  recovered already p (too_long b) = inl refl
  recovered already p (html_page n) = inl refl

  -- Nothing is sent, and the client reads that the prompt is too long although it was cut; or the prepared payload is, once or twice.
  abbrev pub IsSent : ℕ → Fields → Fields × Bool → Result × List Fields → Type 0
  IsSent budget payload prepared r =
      ((r.1 ≡ [])
        × (r.0 ≡ too_long true)
        × (prepared.1 ≡ true)
        × (input_limit py payload budget < estimate_prompt_tokens prepared.0))
      ⊎ (IsRetry prepared.0 (send [] prepared.0) r.1
          × (prepared.1 ≡ true
              → 0 < budget
              → estimate_prompt_tokens prepared.0 ≤ input_limit py payload budget))

  over : (b l e : ℕ) (t : Bool) → t && (ltb 0 b && ltb l e) ≡ true → (t ≡ true) × (l < e)
  over b l e t h = ground arith

  fits : (b l e : ℕ) (t : Bool) → t && (ltb 0 b && ltb l e) ≡ false → t ≡ true → 0 < b → e ≤ l
  fits b l e t h k z = ground arith

  sent :
      (budget : ℕ) (payload : Fields) (prepared : Fields × Bool)
      → IsSent budget payload prepared (send_prepared py st budget send payload prepared)
  sent budget payload (p, t) =
      at (t && (ltb 0 budget && ltb (input_limit py payload budget) (estimate_prompt_tokens p)))
        refl
    where
      at :
          (b : Bool)
          → t && (ltb 0 budget && ltb (input_limit py payload budget) (estimate_prompt_tokens p))
            ≡ b
          → let r : Result × List Fields =
              if b then (too_long true, []) else recover py st send t p (send [] p) in
            IsSent budget payload (p, t) r
      at true e =
          let (changed, above) =
            over budget (input_limit py payload budget) (estimate_prompt_tokens p) t e in
          inl (refl, refl, changed, above)
      at false e = inr (
        recovered t p (send [] p),
        fits budget (input_limit py payload budget) (estimate_prompt_tokens p) t e,
      )
