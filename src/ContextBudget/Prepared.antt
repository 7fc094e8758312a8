-- ===== src/ContextBudget/Prepared.antt =====
-- context_budget.py, `prepare_dispatch` and `recovery_payload`: a cut keeps the newest turn and makes the history shorter.
use buddy2api.Prelude.{
  ℕ, zero, suc, ◌<◌, ◌≡◌, refl, sym, ap, Bool, true, false, true≢false, ◌||◌, inl, inr, ◌⊎◌, some,
  List, leb, ltb, ltb→lt, length, if◌then◌else◌, subst,
}
use buddy2api.History.{
  Json, arr, Items, Fields, get, to_list, flatten, estimate_prompt_tokens, history_segments,
  trim_history,
}
use buddy2api.History.Kept.{IsCut, trim_history-IsCut}
use buddy2api.ContextBudget.{
  Builtins, input_limit, messages_of, cut_messages, trim_to_limit, if_changed, prepare,
}

module _ (payload : Fields) (items : Items) where
  -- Either nothing is changed, or the history is cut to the limit, as far as whole segments allow, and has fewer messages.
  abbrev pub IsTrimmed : ℕ → Fields × Bool → Type 0
  IsTrimmed limit (p, changed) =
      ((changed ≡ false) × (p ≡ payload))
      ⊎ ((changed ≡ true)
          × (rest : List (List Json)) × IsCut "messages" limit payload
              (history_segments (to_list items)) (p, rest)
          × (length (flatten rest) < length (to_list items)))

  module _ (h : get "messages" payload ≡ some (arr items)) where
    -- What `trim_to_limit` gives where it says that it changed something.
    pub trim_to_limit_lem :
        (limit : ℕ)
        → (trim_to_limit payload limit).1 ≡ true
        → (rest : List (List Json)) × IsCut "messages" limit payload
            (history_segments (to_list items))
            ((trim_to_limit payload limit).0, rest)
          × (length (flatten rest) < length (to_list items))
    unfolding trim_to_limit
    trim_to_limit_lem limit k =
        subst Claim (sym (ap (λ o. cut_messages payload limit (messages_of o)) h))
          (at (leb limit 0 || leb (estimate_prompt_tokens payload) limit)) k
      where
        Claim : Fields × Bool → Type 0
        Claim r =
            r.1 ≡ true
            → (rest : List (List Json)) × IsCut "messages" limit payload
                (history_segments (to_list items)) (r.0, rest)
              × (length (flatten rest) < length (to_list items))

        at :
            (b : Bool)
            → let t = trim_history payload "messages" (to_list items) limit in
              Claim (
                if b
                then (payload, false)
                else (t.0, ltb (length (flatten t.1)) (length (to_list items))))
        at true e = absurd (true≢false (sym e))
        at false e =
            let t = trim_history payload "messages" (to_list items) limit in
            (
              t.1,
              trim_history-IsCut "messages" limit payload items h,
              ltb→lt (length (flatten t.1)) (length (to_list items)) e,
            )

    settled :
        (limit : ℕ) (r : Fields × Bool)
        → (r.1 ≡ true
            → (rest : List (List Json)) × IsCut "messages" limit payload
                (history_segments (to_list items))
                (r.0, rest)
              × (length (flatten rest) < length (to_list items)))
        → IsTrimmed limit (if_changed payload r)
    settled limit (p, true) f = let (rest, cut, fewer) = f refl in inr (refl, rest, cut, fewer)
    settled limit (p, false) f = inl (refl, refl)

    -- What is sent first is the client's payload, or a cut of its messages to the limit of the channel's budget, as far as whole segments
    -- allow, which has fewer messages and the same newest segment and other fields.
    pub prepare-IsTrimmed :
        (py : Builtins) (budget : ℕ)
        → IsTrimmed (input_limit py payload budget) (prepare py budget payload)
    unfolding prepare
    prepare-IsTrimmed py zero = inl (refl, refl)
    prepare-IsTrimmed py (suc n) =
        fits (leb (estimate_prompt_tokens payload) (input_limit py payload (suc n)))
      where
        fits :
            (b : Bool)
            → IsTrimmed (input_limit py payload (suc n)) (
                if b
                then (payload, false)
                else if_changed payload (trim_to_limit payload (input_limit py payload (suc n))))
        fits true = inl (refl, refl)
        fits false =
            settled (input_limit py payload (suc n))
              (trim_to_limit payload (input_limit py payload (suc n)))
              (trim_to_limit_lem (input_limit py payload (suc n)))
