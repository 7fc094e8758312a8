-- ===== src/History/Budget.antt =====
-- router.py, `trim_codex_prompt`: a prompt that is let through fits the budget.
use buddy2api.Prelude.{
  ℕ, ◌≤◌, ◌<◌, ◌≡◌, refl, Bool, true, false, inl, inr, ◌⊎◌, Option, none, some, List, leb, leb→le,
  length, arith, if◌then◌else◌, ap, sym, subst,
}
use buddy2api.History.{
  Json, arr, Items, Fields, get, to_list, estimate_prompt_tokens, history_segments, trim_history,
  codex_prompt_limit, trim_codex_prompt, trimmed, first_of, trim_key,
}
use buddy2api.History.Kept.{IsCut, trim_history-IsCut}

module _ (payload : Fields) (items : Items) (confirmed : Option ℕ) where
  abbrev limit : ℕ
  limit = codex_prompt_limit confirmed

  abbrev Cut : Fields → List (List Json) → Type 0
  Cut p rest = IsCut "input" limit payload (history_segments (to_list items)) (p, rest)

  -- A prompt that is let through fits, and is the client's or a cut of it; one that is refused does not fit although only its newest
  -- segment is left.
  abbrev pub Judged : Option Fields → Type 0
  Judged (some p) =
      (estimate_prompt_tokens p ≤ limit)
      × ((p ≡ payload) ⊎ ((rest : List (List Json)) × Cut p rest))
  Judged none =
      (p : Fields) × (rest : List (List Json)) × Cut p rest
      × (length rest ≤ 1)
      × (limit < estimate_prompt_tokens p)

  above : (a b : ℕ) → leb a b ≡ false → b < a
  above a b h = ground arith

  crowded : (a l n : ℕ) → leb a l ≡ false → (a ≤ l) ⊎ (n ≤ 1) → n ≤ 1
  crowded a l n h k = ground arith

  judged :
      (p : Fields) (rest : List (List Json))
      → Cut p rest
      → Judged (if leb (estimate_prompt_tokens p) limit then some p else none)
  judged p rest cut = at (leb (estimate_prompt_tokens p) limit) refl
    where
      at :
          (b : Bool)
          → leb (estimate_prompt_tokens p) limit ≡ b
          → Judged (if b then some p else none)
      at true e = (leb→le (estimate_prompt_tokens p) limit e, inr (rest, cut))
      at false e = (
        p,
        rest,
        cut,
        crowded (estimate_prompt_tokens p) limit (length rest) e cut.3,
        above (estimate_prompt_tokens p) limit e,
      )

  -- For a prompt whose history stands under `input`: what is let through fits the budget, and is the client's own prompt or a cut of its
  -- history; it is refused only where even the newest segment with the other fields is above the budget.
  pub trim_codex_prompt-Judged :
      get "input" payload ≡ some (arr items) → Judged (trim_codex_prompt payload confirmed)
  unfolding trim_codex_prompt
  trim_codex_prompt-Judged h = first (leb (estimate_prompt_tokens payload) limit) refl
    where
      picked :
          trimmed payload limit (
            first_of
              (trim_key payload "input" (get "input" payload))
              (trim_key payload "messages" (get "messages" payload)))
          ≡ (trim_history payload "input" (to_list items) limit).0
      picked =
          ap
            (λ o. trimmed payload limit (
              first_of (trim_key payload "input" o)
                (trim_key payload "messages" (get "messages" payload))))
            h

      first :
          (b : Bool)
          → leb (estimate_prompt_tokens payload) limit ≡ b
          → let result = trimmed payload limit (
              first_of
                (trim_key payload "input" (get "input" payload))
                (trim_key payload "messages" (get "messages" payload))) in
            Judged (
              if b
              then some payload
              else (if leb (estimate_prompt_tokens result) limit then some result else none))
      first true e = (leb→le (estimate_prompt_tokens payload) limit e, inl refl)
      first false e =
          let r = trim_history payload "input" (to_list items) limit in
          subst
            (λ result.
              Judged (if leb (estimate_prompt_tokens result) limit then some result else none))
            (sym picked) (judged r.0 r.1 (trim_history-IsCut "input" limit payload items h))
