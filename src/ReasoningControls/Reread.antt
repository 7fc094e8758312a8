-- ===== src/ReasoningControls/Reread.antt =====
-- reasoning_controls.py, `resolve_reasoning_control`: what is read from a request that is clean.
use Prim.Native.String.{String}
use buddy2api.Prelude.{
  ◌≡◌, ◌≢◌, refl, ap, ◌∙◌, subst, Bool, true, false, inl, inr, Option, none, some, List, [], ◌∷◌,
  if◌then◌else◌, All, ◌||◌,
}
use buddy2api.Prelude.Texts.{strip, str_in, str_in_iff}
use buddy2api.Prelude.Member.{In}
use buddy2api.History.{Json, null, plain, str, arr, obj, Fields, get, is_zero_text}
use buddy2api.ContextBudget.Rejection.{starts_with}
use buddy2api.ReasoningControls.{
  Checked, invalid, valid, ControlMode, default, disabled, enabled, leveled, ReasoningControl,
  from_effort, from_switch, from_disable_switch, from_budget, is_negative, is_bool_text, collect,
  add_candidate, of_word, choose, is_default,
}
use buddy2api.ReasoningControls.Normalized.{
  nested, bare, effort_checks, switch_checks, from_type, validated, chat_reasoning_effort,
}
use buddy2api.ReasoningControls.Canonical.{levels, HasLevel}
use buddy2api.ReasoningControls.Cleaned.{
  remove_all-All, nested-left_out, nested-left_in, bare-left, reasoning_keys, thinking_keys,
}
use buddy2api.ReasoningControls.Clean.{IsClean, nested-left_output}

-- The budgets of the native objects, the only controls beside `reasoning_effort` that a clean request keeps.
pub data IsBudget (source : String) : Option ReasoningControl → Type 0 where
  no_budget : IsBudget source none
  a_budget :
      (z : Bool) (s : String)
      → IsBudget source (
          some (record {
            mode = if z then disabled else enabled;
            effort = none;
            source = some source;
            budget_tokens = some s;
          }))

abbrev pub GivesBudget : String → Checked (Option ReasoningControl) → Type 0
GivesBudget source (invalid e) = Unit
GivesBudget source (valid r) = IsBudget source r

if-GivesBudget :
    (source : String) (b : Bool) (x y : Checked (Option ReasoningControl))
    → GivesBudget source x
    → GivesBudget source y
    → GivesBudget source (if b then x else y)
if-GivesBudget source true x y h k = h
if-GivesBudget source false x y h k = k

pub from_budget-GivesBudget :
    (j : Option Json) (source : String) → GivesBudget source (from_budget j source)
unfolding from_budget
from_budget-GivesBudget none source = no_budget
from_budget-GivesBudget (some null) source = no_budget
from_budget-GivesBudget (some (plain s)) source =
    if-GivesBudget source (is_bool_text s || is_negative s) _ _ tt (a_budget (is_zero_text s) s)
from_budget-GivesBudget (some (str s)) source = tt
from_budget-GivesBudget (some (arr js)) source = tt
from_budget-GivesBudget (some (obj d)) source = tt

-- The effort of a normalized request, read again.
abbrev pub effort_control : ControlMode → Option String → ReasoningControl
effort_control m e = record {
  mode = m;
  effort = e;
  source = some "reasoning_effort";
  budget_tokens = none;
}

abbrev pub words : List String
words = "none" ∷ levels

-- A word that `reasoning_effort` may be set to is read as a control that sets it again.
abbrev pub IsRead : String → Type 0
IsRead w =
    (m : ControlMode) × (e : Option String) × (of_word w "reasoning_effort"
      ≡ valid (some (effort_control m e)))
    × (m ≢ default)
    × (chat_reasoning_effort m e ≡ some w)
    × (strip w ≡ w)

pub words-IsRead : All IsRead words
unfolding chat_reasoning_effort strip
words-IsRead = (
  (disabled, none, refl, (λ e. cc e), refl, refl),
  (
    (leveled, some "minimal", refl, (λ e. cc e), refl, refl),
    (
      (leveled, some "low", refl, (λ e. cc e), refl, refl),
      (
        (leveled, some "medium", refl, (λ e. cc e), refl, refl),
        (
          (leveled, some "high", refl, (λ e. cc e), refl, refl),
          (
            (leveled, some "xhigh", refl, (λ e. cc e), refl, refl),
            (
              (leveled, some "max", refl, (λ e. cc e), refl, refl),
              ((leveled, some "ultra", refl, (λ e. cc e), refl, refl), tt),
            ),
          ),
        ),
      ),
    ),
  ),
)

-- What a canonical control sets is such a word.
pub sets_word :
    (m : ControlMode) (e : Option String) (w : String)
    → HasLevel m e
    → chat_reasoning_effort m e ≡ some w
    → In w words
unfolding chat_reasoning_effort
sets_word default e w h k = absurd (cc k)
sets_word disabled e w h k = inl (cc k)
sets_word enabled e w h k =
    inr (
      (str_in_iff w levels).0
        (subst (λ x. str_in x levels ≡ true) {x = "high"} {y = w} (cc k) refl))
sets_word leveled none w h k = absurd h
sets_word leveled (some e) w h k =
    inr ((str_in_iff w levels).0 (subst (λ x. str_in x levels ≡ true) {x = e} {y = w} (cc k) h))

-- Budgets alone are never in conflict, nor with an effort that is not of their object.
abbrev pub budgets : Option ReasoningControl → Option ReasoningControl → List ReasoningControl
budgets none none = []
budgets none (some r) = r ∷ []
budgets (some t) none = t ∷ []
budgets (some t) (some r) = t ∷ r ∷ []

not_default : (m : ControlMode) → m ≢ default → is_default m ≡ false
not_default default h = absurd (h refl)
not_default disabled h = refl
not_default enabled h = refl
not_default leveled h = refl

pub validated_effort :
    (m : ControlMode) (e : Option String) (t r : Option ReasoningControl)
    → m ≢ default
    → IsBudget "thinking.budget_tokens" t
    → IsBudget "reasoning.budget_tokens" r
    → validated (effort_control m e ∷ []) (budgets t r) ≡ valid (effort_control m e)
unfolding choose starts_with
validated_effort m e _ _ h no_budget no_budget = rw (not_default m h) refl
validated_effort m e _ _ h no_budget (a_budget true s) = rw (not_default m h) refl
validated_effort m e _ _ h no_budget (a_budget false s) = rw (not_default m h) refl
validated_effort m e _ _ h (a_budget true s) no_budget = rw (not_default m h) refl
validated_effort m e _ _ h (a_budget false s) no_budget = rw (not_default m h) refl
validated_effort m e _ _ h (a_budget true s) (a_budget true u) = rw (not_default m h) refl
validated_effort m e _ _ h (a_budget true s) (a_budget false u) = rw (not_default m h) refl
validated_effort m e _ _ h (a_budget false s) (a_budget true u) = rw (not_default m h) refl
validated_effort m e _ _ h (a_budget false s) (a_budget false u) = rw (not_default m h) refl

-- What a collection is made of.
abbrev pub cons_opt : Option ReasoningControl → List ReasoningControl → List ReasoningControl
cons_opt none cs = cs
cons_opt (some c) cs = c ∷ cs

abbrev pub Parts :
    Checked (Option ReasoningControl)
    → List (Checked (Option ReasoningControl))
    → List ReasoningControl
    → Type 0
Parts check checks cs =
    (o : Option ReasoningControl) × (ds : List ReasoningControl) × (check ≡ valid o)
    × (collect checks ≡ valid ds)
    × (cs ≡ cons_opt o ds)

pub collect-Parts :
    (check : Checked (Option ReasoningControl)) (checks : List (Checked (Option ReasoningControl)))
    (cs : List ReasoningControl)
    → collect (check ∷ checks) ≡ valid cs
    → Parts check checks cs
unfolding collect
collect-Parts (invalid e) checks cs h = absurd (cc h)
collect-Parts (valid none) checks cs h = (none, cs, refl, h, refl)
collect-Parts (valid (some c)) checks cs h = split (collect checks) refl h
  where
    split :
        (r : Checked (List ReasoningControl))
        → collect checks ≡ r
        → add_candidate (some c) r ≡ valid cs
        → Parts (valid (some c)) checks cs
    split (invalid e) k g = absurd (cc g)
    split (valid ds) k g = (some c, ds, refl, k, cc g)

pub cons_opt-nil :
    (o : Option ReasoningControl) (ds : List ReasoningControl)
    → cons_opt o ds ≡ []
    → (o ≡ none) × (ds ≡ [])
cons_opt-nil none ds h = (refl, h)
cons_opt-nil (some c) ds h = absurd (cc h)

collect_cons :
    (check : Checked (Option ReasoningControl)) (xs ys : List (Checked (Option ReasoningControl)))
    → collect xs ≡ collect ys
    → collect (check ∷ xs) ≡ collect (check ∷ ys)
unfolding collect
collect_cons (invalid e) xs ys h = refl
collect_cons (valid c) xs ys h = ap (add_candidate c) h

module _ (lower : String → String) (p d : Fields) (c : IsClean p d) where
  pub no_reasoning_effort : nested "effort" (get "reasoning" d) ≡ none
  no_reasoning_effort =
      ap (nested "effort") c.reasoning
      ∙ nested-left_out "effort" reasoning_keys (get "reasoning" p)
          (λ f. (remove_all-All reasoning_keys f).0)

  pub no_reasoning_enabled : nested "enabled" (get "reasoning" d) ≡ none
  no_reasoning_enabled =
      ap (nested "enabled") c.reasoning
      ∙ nested-left_out "enabled" reasoning_keys (get "reasoning" p)
          (λ f. (remove_all-All reasoning_keys f).1.0)

  pub no_thinking_type : nested "type" (get "thinking" d) ≡ none
  no_thinking_type =
      ap (nested "type") c.thinking
      ∙ nested-left_out "type" thinking_keys (get "thinking" p)
          (λ f. (remove_all-All thinking_keys f).0)

  pub no_thinking_effort : nested "effort" (get "thinking" d) ≡ none
  no_thinking_effort =
      ap (nested "effort") c.thinking
      ∙ nested-left_out "effort" thinking_keys (get "thinking" p)
          (λ f. (remove_all-All thinking_keys f).1.0)

  pub no_output_effort : nested "effort" (get "output_config" d) ≡ none
  no_output_effort =
      ap (nested "effort") c.output_config ∙ nested-left_output (get "output_config" p)

  same_thinking_budget :
      nested "budget_tokens" (get "thinking" d) ≡ nested "budget_tokens" (get "thinking" p)
  same_thinking_budget =
      ap (nested "budget_tokens") c.thinking
      ∙ nested-left_in "budget_tokens" thinking_keys (get "thinking" p) refl

  same_reasoning_budget :
      nested "budget_tokens" (get "reasoning" d) ≡ nested "budget_tokens" (get "reasoning" p)
  same_reasoning_budget =
      ap (nested "budget_tokens") c.reasoning
      ∙ nested-left_in "budget_tokens" reasoning_keys (get "reasoning" p) refl

  pub no_bare_reasoning : bare (get "reasoning" d) ≡ none
  no_bare_reasoning = ap bare c.reasoning ∙ bare-left reasoning_keys (get "reasoning" p)

  pub no_bare_thinking : bare (get "thinking" d) ≡ none
  no_bare_thinking = ap bare c.thinking ∙ bare-left thinking_keys (get "thinking" p)

  -- The only effort that is read is the one that the first normalization set.
  pub collect-effort_checks :
      (q : Bool)
      → collect (effort_checks lower q d)
        ≡ collect (from_effort lower (get "reasoning_effort" d) "reasoning_effort" ∷ [])
  unfolding from_effort collect
  collect-effort_checks true = rw no_reasoning_effort (
      collect_cons (from_effort lower (get "reasoning_effort" d) "reasoning_effort") _ [] (
        rw (c.others.0, no_output_effort, no_thinking_effort, no_bare_reasoning, no_bare_thinking)
          refl))
  collect-effort_checks false =
      collect_cons (from_effort lower (get "reasoning_effort" d) "reasoning_effort") _ [] (
        rw
          (
            no_reasoning_effort, c.others.0, no_output_effort, no_thinking_effort,
            no_bare_reasoning, no_bare_thinking,
          )
          refl)

  -- The only switches are the budgets of the request as it was.
  pub collect-switch_checks :
      (t r : Option ReasoningControl)
      → from_budget (nested "budget_tokens" (get "thinking" p)) "thinking.budget_tokens" ≡ valid t
      → from_budget (nested "budget_tokens" (get "reasoning" p)) "reasoning.budget_tokens" ≡ valid r
      → collect (switch_checks lower d) ≡ valid (budgets t r)
  unfolding from_type from_switch from_disable_switch collect
  collect-switch_checks t r ht hr =
      rw
        (
          no_thinking_type, same_thinking_budget, ht, no_reasoning_enabled, same_reasoning_budget,
          hr, c.others.1.0, c.others.1.1.0, c.others.1.1.1.0,
        )
        (pick t r)
    where
      pick :
          (t r : Option ReasoningControl)
          → add_candidate t (add_candidate r (valid [])) ≡ valid (budgets t r)
      pick none none = refl
      pick none (some x) = refl
      pick (some x) none = refl
      pick (some x) (some y) = refl
