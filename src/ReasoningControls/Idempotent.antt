-- ===== src/ReasoningControls/Idempotent.antt =====
-- reasoning_controls.py, `normalize_chat_reasoning`: a normalized request is normal.
use Prim.Native.String.{String}
use buddy2api.Prelude.{
  ◌≡◌, refl, sym, ap, ◌∙◌, subst, Bool, true, false, inl, inr, Option-cases, ◌⊎◌, Option, none,
  some, List, [], ◌∷◌, ◌++◌, if◌then◌else◌, All,
}
use buddy2api.Prelude.Texts.{strip}
use buddy2api.Prelude.Member.{In, In-All}
use buddy2api.History.{str, Fields, get}
use buddy2api.ReasoningControls.{
  Checked, invalid, valid, ControlMode, default, disabled, enabled, leveled, ReasoningControl,
  from_effort, from_budget, collect, choose, default_reasoning, first_choice, has_conflict,
}
use buddy2api.ReasoningControls.Normalized.{
  effort_checks, switch_checks, other_names, validated, then_efforts, nested, bare,
  resolve_reasoning_control, chat_reasoning_effort, clean, set_effort, with_control,
  normalize_chat_reasoning,
}
use buddy2api.ReasoningControls.Canonical.{
  IsCanonical, HasLevel, resolve_reasoning_control-IsCanonical,
}
use buddy2api.ReasoningControls.Clean.{
  IsClean, clean-IsClean, as_str, get-set_effort, set_effort_same, set_effort-IsClean,
  IsClean-clean,
}
use buddy2api.ReasoningControls.Cleaned.{bare-left, nested-left_in, reasoning_keys, thinking_keys}
use buddy2api.ReasoningControls.Reread.{
  GivesBudget, from_budget-GivesBudget, effort_control, words, IsRead, words-IsRead, sets_word,
  validated_effort, collect-Parts, cons_opt-nil, collect-effort_checks, collect-switch_checks,
  no_reasoning_effort, no_reasoning_enabled, no_thinking_type, no_thinking_effort, no_output_effort,
}
use buddy2api.ReasoningControls.Switched.{
  AllSwitch, collect-AllSwitch, no_switch, switch_checks-Switches,
}

-- What a control is resolved from.
abbrev Origin : (String → String) → Bool → Fields → ReasoningControl → Type 0
Origin lower prefer payload c =
    (es : List ReasoningControl) × (cs : List ReasoningControl) × (collect
        (effort_checks lower prefer payload)
      ≡ valid es)
    × (collect (switch_checks lower payload) ≡ valid cs)
    × (choose (first_choice es) cs ≡ c)

validated_choice :
    (es cs : List ReasoningControl) (c : ReasoningControl)
    → validated es cs ≡ valid c
    → choose (first_choice es) cs ≡ c
validated_choice es cs c h =
    branch (has_conflict "reasoning" (es ++ cs)) (has_conflict "thinking" (es ++ cs)) _ _ h
  where
    branch :
        (a b : Bool) (x y : String)
        → (if a then invalid x else (if b then invalid y else valid (choose (first_choice es) cs)))
          ≡ valid c
        → choose (first_choice es) cs ≡ c
    branch true b x y k = absurd (cc k)
    branch false true x y k = absurd (cc k)
    branch false false x y k = cc k

origin :
    (lower : String → String) (prefer : Bool) (payload : Fields) (c : ReasoningControl)
    → resolve_reasoning_control lower prefer payload ≡ valid c
    → Origin lower prefer payload c
unfolding resolve_reasoning_control
origin lower prefer payload c h =
    parts (collect (effort_checks lower prefer payload)) (collect (switch_checks lower payload))
      refl refl h
  where
    parts :
        (es cs : Checked (List ReasoningControl))
        → collect (effort_checks lower prefer payload) ≡ es
        → collect (switch_checks lower payload) ≡ cs
        → then_efforts es cs ≡ valid c
        → Origin lower prefer payload c
    parts (invalid e) cs he hc k = absurd (cc k)
    parts (valid es) (invalid e) he hc k = absurd (cc k)
    parts (valid es) (valid cs) he hc k = (es, cs, he, hc, validated_choice es cs c k)

-- The budgets of a request that resolves, and none where there is no switch at all.
abbrev Budgets : Fields → List ReasoningControl → Type 0
Budgets payload cs =
    (t : Option ReasoningControl) × (r : Option ReasoningControl) × (from_budget
        (nested "budget_tokens" (get "thinking" payload)) "thinking.budget_tokens"
      ≡ valid t)
    × (from_budget (nested "budget_tokens" (get "reasoning" payload)) "reasoning.budget_tokens"
        ≡ valid r)
    × (cs ≡ [] → (t ≡ none) × (r ≡ none))

collect-Budgets :
    (lower : String → String) (payload : Fields) (cs : List ReasoningControl)
    → collect (switch_checks lower payload) ≡ valid cs
    → Budgets payload cs
collect-Budgets lower payload cs h =
    let (o1, d1, _, h1, e1) = collect-Parts _ _ cs h in
    let (t, d2, ht, h2, e2) = collect-Parts _ _ d1 h1 in
    let (o3, d3, _, h3, e3) = collect-Parts _ _ d2 h2 in
    let (r, d4, hr, h4, e4) = collect-Parts _ _ d3 h3 in
    (
      t,
      r,
      ht,
      hr,
      λ e.
          let n1 = (cons_opt-nil o1 d1 (sym e1 ∙ e)).1 in
          let (nt, n2) = cons_opt-nil t d2 (sym e2 ∙ n1) in
          let n3 = (cons_opt-nil o3 d3 (sym e3 ∙ n2)).1 in
          (nt, (cons_opt-nil r d4 (sym e4 ∙ n3)).0),
    )

no_effort :
    (m : ControlMode) (e : Option String)
    → HasLevel m e
    → chat_reasoning_effort m e ≡ none
    → m ≡ default
unfolding chat_reasoning_effort
no_effort default e h k = refl
no_effort disabled e h k = absurd (cc k)
no_effort enabled e h k = absurd (cc k)
no_effort leveled none h k = absurd h
no_effort leveled (some w) h k = absurd (cc k)

module _ (lower : String → String) (known : (w : String) → In w words → lower w ≡ w) where
  -- A second reading gives the same effort.
  abbrev Again : Bool → Fields → Option String → Type 0
  Again q d e =
      (c : ReasoningControl) × (resolve_reasoning_control lower q d ≡ valid c)
      × (chat_reasoning_effort c.mode c.effort ≡ e)

  word-Again :
      (q : Bool) (p d : Fields) (w : String) (t r : Option ReasoningControl)
      → IsClean p d
      → get "reasoning_effort" d ≡ some (str w)
      → In w words
      → from_budget (nested "budget_tokens" (get "thinking" p)) "thinking.budget_tokens" ≡ valid t
      → from_budget (nested "budget_tokens" (get "reasoning" p)) "reasoning.budget_tokens" ≡ valid r
      → Again q d (some w)
  unfolding resolve_reasoning_control from_effort collect
  word-Again q p d w t r c e i ht hr =
      let (m, x, read, nd, says_w, same) = In-All IsRead w words words-IsRead i in
      let word : lower (strip w) ≡ w = ap lower same ∙ known w i in
      let efforts : collect (effort_checks lower q d) ≡ valid (effort_control m x ∷ []) =
        collect-effort_checks lower p d c q ∙ rw (e, word, read) refl in
      (
        effort_control m x,
        rw (efforts, collect-switch_checks lower p d c t r ht hr)
            (validated_effort m x t r nd
              (subst (GivesBudget "thinking.budget_tokens") ht (from_budget-GivesBudget _ _))
              (subst (GivesBudget "reasoning.budget_tokens") hr (from_budget-GivesBudget _ _))),
        says_w,
      )

  nothing-Again :
      (q : Bool) (p d : Fields)
      → IsClean p d
      → get "reasoning_effort" d ≡ none
      → from_budget (nested "budget_tokens" (get "thinking" p)) "thinking.budget_tokens"
        ≡ valid none
      → from_budget (nested "budget_tokens" (get "reasoning" p)) "reasoning.budget_tokens"
        ≡ valid none
      → Again q d none
  unfolding resolve_reasoning_control from_effort collect choose chat_reasoning_effort
  nothing-Again q p d c e ht hr =
      let efforts : collect (effort_checks lower q d) ≡ valid [] =
        collect-effort_checks lower p d c q ∙ rw e refl in
      (
        default_reasoning,
        rw (efforts, collect-switch_checks lower p d c none none ht hr) refl,
        refl,
      )

  effort-Again :
      (q : Bool) (p d : Fields) (cs : List ReasoningControl) (c : ReasoningControl)
      → IsClean p d
      → IsCanonical c
      → get "reasoning_effort" d ≡ as_str (chat_reasoning_effort c.mode c.effort)
      → Budgets p cs
      → (c.mode ≡ default → cs ≡ [])
      → Again q d (chat_reasoning_effort c.mode c.effort)
  effort-Again q p d cs c cl can e (t, r, ht, hr, empty_of) empty =
      elim (Option-cases (chat_reasoning_effort c.mode c.effort)) [
        | inl n ↦
            let (nt, nr) = empty_of (empty (no_effort c.mode c.effort can n)) in
            subst (Again q d) (sym n)
              (nothing-Again q p d cl (e ∙ ap as_str n) (ht ∙ ap valid nt) (hr ∙ ap valid nr))
        | inr (w, n) ↦
            subst (Again q d) (sym n) (
              word-Again q p d w t r cl (e ∙ ap as_str n) (sets_word c.mode c.effort w can n) ht hr)
      ]

  normalized_twice :
      (q : Bool) (d : Fields) (e : Option String)
      → Again q d e
      → clean d ≡ d
      → get "reasoning_effort" d ≡ as_str e
      → normalize_chat_reasoning lower q d ≡ valid d
  unfolding normalize_chat_reasoning
  normalized_twice q d e (c, h, same) cl g =
      ap (with_control d) h
      ∙ ap valid (
          ap (λ x. set_effort (chat_reasoning_effort c.mode c.effort) x) cl
          ∙ ap (λ x. set_effort x d) same
          ∙ set_effort_same e d g)

  -- The request that `normalize_chat_reasoning` returns is one that it returns as it is, whichever of the two spellings is preferred now or then. `lower` leaves the words alone that `reasoning_effort` is set to.
  pub normalize_chat_reasoning_idempotent :
      (prefer again : Bool) (payload body : Fields)
      → normalize_chat_reasoning lower prefer payload ≡ valid body
      → normalize_chat_reasoning lower again body ≡ valid body
  unfolding normalize_chat_reasoning
  normalize_chat_reasoning_idempotent prefer again payload body h =
      result (resolve_reasoning_control lower prefer payload) refl h
    where
      result :
          (r : Checked ReasoningControl)
          → resolve_reasoning_control lower prefer payload ≡ r
          → with_control payload r ≡ valid body
          → normalize_chat_reasoning lower again body ≡ valid body
      result (invalid e) k g = absurd (cc g)
      result (valid c) k g =
          let e = chat_reasoning_effort c.mode c.effort in
          let d = set_effort e (clean payload) in
          let cl = set_effort-IsClean e payload (clean payload) (clean-IsClean payload) in
          let (es, cs, _, hc, chosen) = origin lower prefer payload c k in
          let switches = subst AllSwitch hc (
            collect-AllSwitch (switch_checks lower payload)
              (switch_checks-Switches lower payload)) in
          let empty : c.mode ≡ default → cs ≡ [] = λ m.
            no_switch es cs (first_choice es) refl switches
              (ap (λ (x : ReasoningControl). x.mode) chosen ∙ m) in
          subst (λ b. normalize_chat_reasoning lower again b ≡ valid b) {x = d} {y = body} (cc g)
            (normalized_twice again d e
              (effort-Again again payload d cs c cl
                (resolve_reasoning_control-IsCanonical lower prefer payload c k)
                (get-set_effort e (clean payload)) (collect-Budgets lower payload cs hc) empty)
              (IsClean-clean payload d cl) (get-set_effort e (clean payload)))

-- A request without the other spellings, whose `reasoning_effort` is a word that is known; the token budgets are those of the request before.
pub record IsNormal (p d : Fields) : Type 0 where
  pub others : All (λ k. get k d ≡ none) other_names
  pub reasoning :
      (nested "effort" (get "reasoning" d) ≡ none) × (nested "enabled" (get "reasoning" d) ≡ none)
  pub thinking :
      (nested "type" (get "thinking" d) ≡ none) × (nested "effort" (get "thinking" d) ≡ none)
  pub output_config : nested "effort" (get "output_config" d) ≡ none
  pub bare_reasoning : bare (get "reasoning" d) ≡ none
  pub bare_thinking : bare (get "thinking" d) ≡ none
  pub budgets :
      (nested "budget_tokens" (get "reasoning" d) ≡ nested "budget_tokens" (get "reasoning" p))
      × (nested "budget_tokens" (get "thinking" d) ≡ nested "budget_tokens" (get "thinking" p))
  pub effort :
      (get "reasoning_effort" d ≡ none)
      ⊎ ((w : String) × In w words × (get "reasoning_effort" d ≡ some (str w)))

module _ (lower : String → String) where
  -- In the request that `normalize_chat_reasoning` returns, `reasoning_effort` is missing or one of none, minimal, low, medium, high, xhigh, max and ultra, and no other spelling of the effort or of a switch is left, nested or as the value of `reasoning` or `thinking` itself, but for the two `budget_tokens`, which stand as they did.
  pub normalize_chat_reasoning-IsNormal :
      (prefer : Bool) (payload body : Fields)
      → normalize_chat_reasoning lower prefer payload ≡ valid body
      → IsNormal payload body
  unfolding normalize_chat_reasoning
  normalize_chat_reasoning-IsNormal prefer payload body h =
      result (resolve_reasoning_control lower prefer payload) refl h
    where
      word :
          (c : ReasoningControl) (d : Fields)
          → IsCanonical c
          → get "reasoning_effort" d ≡ as_str (chat_reasoning_effort c.mode c.effort)
          → (get "reasoning_effort" d ≡ none)
            ⊎ ((w : String) × In w words × (get "reasoning_effort" d ≡ some (str w)))
      word c d can g = elim (Option-cases (chat_reasoning_effort c.mode c.effort)) [
        | inl n ↦ inl (g ∙ ap as_str n)
        | inr (w, n) ↦ inr (w, sets_word c.mode c.effort w can n, g ∙ ap as_str n)
      ]

      result :
          (r : Checked ReasoningControl)
          → resolve_reasoning_control lower prefer payload ≡ r
          → with_control payload r ≡ valid body
          → IsNormal payload body
      result (invalid e) k g = absurd (cc g)
      result (valid c) k g =
          let e = chat_reasoning_effort c.mode c.effort in
          let d = set_effort e (clean payload) in
          let cl = set_effort-IsClean e payload (clean payload) (clean-IsClean payload) in
          subst (IsNormal payload) {x = d} {y = body} (cc g) (record {
            others = cl.others;
            reasoning =
                (no_reasoning_effort lower payload d cl, no_reasoning_enabled lower payload d cl);
            thinking = (no_thinking_type lower payload d cl, no_thinking_effort lower payload d cl);
            output_config = no_output_effort lower payload d cl;
            bare_reasoning =
                ap bare cl.reasoning ∙ bare-left reasoning_keys (get "reasoning" payload);
            bare_thinking = ap bare cl.thinking ∙ bare-left thinking_keys (get "thinking" payload);
            budgets = (
              ap (nested "budget_tokens") cl.reasoning
                  ∙ nested-left_in "budget_tokens" reasoning_keys (get "reasoning" payload) refl,
              ap (nested "budget_tokens") cl.thinking
                  ∙ nested-left_in "budget_tokens" thinking_keys (get "thinking" payload) refl,
            );
            effort =
                word c d (resolve_reasoning_control-IsCanonical lower prefer payload c k)
                  (get-set_effort e (clean payload));
          })
