-- ===== src/ReasoningControls/Switched.antt =====
-- reasoning_controls.py, `resolve_reasoning_control`: a switch never asks for the default, so the default is chosen only where there is no switch.
use Prim.Native.String.{String}
use buddy2api.Prelude.{
  ◌≡◌, ◌≢◌, refl, sym, ap, ◌∙◌, Bool, true, false, inl, inr, true≢false, Bool-cases, Option, none,
  some, List, [], ◌∷◌, str_eq, if◌then◌else◌, All, ◌||◌,
}
use buddy2api.Prelude.Texts.{strip, str_in}
use buddy2api.History.{Json, null, plain, str, arr, obj, Fields, is_zero_text}
use buddy2api.ReasoningControls.{
  Checked, invalid, valid, ControlMode, default, disabled, enabled, ReasoningControl, from_switch,
  from_disable_switch, from_budget, is_negative, is_bool_text, collect, add_candidate, choose,
  choose_effort, with_budget, keep_budget, first_choice, is_default, disabled_values,
  enabled_values, is_native, native_control_group, first_budget,
}
use buddy2api.ReasoningControls.Normalized.{switch_checks, from_type}

-- A switch never asks for the default.
abbrev pub Switches : Checked (Option ReasoningControl) → Type 0
Switches (invalid e) = Unit
Switches (valid none) = Unit
Switches (valid (some c)) = c.mode ≢ default

if-Switches :
    (b : Bool) (x y : Checked (Option ReasoningControl))
    → Switches x
    → Switches y
    → Switches (if b then x else y)
if-Switches true x y h k = h
if-Switches false x y h k = k

of_if : (b : Bool) (m n : ControlMode) → m ≢ default → n ≢ default → (if b then m else n) ≢ default
of_if true m n h k = h
of_if false m n h k = k

is_disabled : disabled ≢ default
is_disabled e = cc e

is_enabled : enabled ≢ default
is_enabled e = cc e

from_budget-Switches : (j : Option Json) (source : String) → Switches (from_budget j source)
unfolding from_budget
from_budget-Switches none source = tt
from_budget-Switches (some null) source = tt
from_budget-Switches (some (plain s)) source =
    if-Switches (is_bool_text s || is_negative s) _ _ tt
      (of_if (is_zero_text s) disabled enabled is_disabled is_enabled)
from_budget-Switches (some (str s)) source = tt
from_budget-Switches (some (arr js)) source = tt
from_budget-Switches (some (obj d)) source = tt

from_disable_switch-Switches :
    (j : Option Json) (source : String) → Switches (from_disable_switch j source)
unfolding from_disable_switch
from_disable_switch-Switches none source = tt
from_disable_switch-Switches (some null) source = tt
from_disable_switch-Switches (some (plain s)) source =
    if-Switches (is_zero_text s) _ _ tt
      (if-Switches (str_eq s "True" || (str_eq s "1" || str_eq s "1.0")) _ _ is_disabled tt)
from_disable_switch-Switches (some (str s)) source = tt
from_disable_switch-Switches (some (arr js)) source = tt
from_disable_switch-Switches (some (obj d)) source = tt

module _ (lower : String → String) where
  from_switch-Switches : (j : Option Json) (source : String) → Switches (from_switch lower j source)
  unfolding from_switch
  from_switch-Switches none source = tt
  from_switch-Switches (some null) source = tt
  from_switch-Switches (some (plain s)) source =
      if-Switches (is_bool_text s || (str_eq s "0" || str_eq s "1")) _ _
        (of_if (str_eq s "True" || str_eq s "1") enabled disabled is_enabled is_disabled) tt
  from_switch-Switches (some (str s)) source =
      if-Switches (str_in (lower (strip s)) disabled_values) _ _ is_disabled
        (if-Switches (str_in (lower (strip s)) enabled_values) _ _ is_enabled tt)
  from_switch-Switches (some (arr js)) source = tt
  from_switch-Switches (some (obj d)) source = tt

  from_type-Switches : (j : Option Json) → Switches (from_type lower j)
  unfolding from_type
  from_type-Switches none = tt
  from_type-Switches (some (str s)) =
      if-Switches (str_eq (lower (strip s)) "disabled") _ _ is_disabled
        (if-Switches (str_in (lower (strip s)) ("enabled" ∷ "adaptive" ∷ [])) _ _ is_enabled tt)
  from_type-Switches (some null) = tt
  from_type-Switches (some (plain s)) = tt
  from_type-Switches (some (arr js)) = tt
  from_type-Switches (some (obj d)) = tt

  pub switch_checks-Switches : (payload : Fields) → All Switches (switch_checks lower payload)
  switch_checks-Switches payload = (
    from_type-Switches _,
    (
      from_budget-Switches _ _,
      (
        from_switch-Switches _ _,
        (
          from_budget-Switches _ _,
          (
            from_switch-Switches _ _,
            (from_switch-Switches _ _, (from_disable_switch-Switches _ _, tt)),
          ),
        ),
      ),
    ),
  )

abbrev pub AllSwitch : Checked (List ReasoningControl) → Type 0
AllSwitch (invalid e) = Unit
AllSwitch (valid cs) = All (λ (c : ReasoningControl). c.mode ≢ default) cs

pub collect-AllSwitch :
    (checks : List (Checked (Option ReasoningControl)))
    → All Switches checks
    → AllSwitch (collect checks)
unfolding collect
collect-AllSwitch [] h = tt
collect-AllSwitch (invalid m ∷ checks) h = tt
collect-AllSwitch (valid none ∷ checks) h = collect-AllSwitch checks h.1
collect-AllSwitch (valid (some c) ∷ checks) h = add (collect checks) (collect-AllSwitch checks h.1)
  where
    add : (r : Checked (List ReasoningControl)) → AllSwitch r → AllSwitch (add_candidate (some c) r)
    add (invalid e) k = tt
    add (valid cs) k = (h.0, k)

-- A control of the default mode is chosen only where there is no switch.
with_budget_mode : (c : ReasoningControl) (b : Option String) → (with_budget c b).mode ≡ c.mode
with_budget_mode c none = refl
with_budget_mode c (some s) = refl

keep_budget_mode :
    (c : ReasoningControl) (own b : Option String) → (keep_budget c own b).mode ≡ c.mode
keep_budget_mode c none b = with_budget_mode c b
keep_budget_mode c (some s) b = refl

choose_effort_mode :
    (c : ReasoningControl) (cs : List ReasoningControl) → (choose_effort c cs).mode ≡ c.mode
choose_effort_mode c cs = branch (is_native (native_control_group c.source))
  where
    branch :
        (b : Bool)
        → (if b then with_budget c (first_budget (native_control_group c.source) cs) else c).mode
          ≡ c.mode
    branch true = with_budget_mode c (first_budget (native_control_group c.source) cs)
    branch false = refl

first_choice_mode :
    (es : List ReasoningControl) (c : ReasoningControl)
    → first_choice es ≡ some c
    → c.mode ≢ default
first_choice_mode [] c h = absurd (cc h)
first_choice_mode (e ∷ es) c h = elim (Bool-cases (is_default e.mode)) [
  | inl t ↦ first_choice_mode es c (sym (ap (λ b. if b then first_choice es else some e) t) ∙ h)
  | inr f ↦
      let same : e ≡ c = cc (sym (ap (λ b. if b then first_choice es else some e) f) ∙ h) in
      λ m. true≢false (sym (ap is_default (ap (λ (x : ReasoningControl). x.mode) same ∙ m)) ∙ f)
]

pub no_switch :
    (es cs : List ReasoningControl) (o : Option ReasoningControl)
    → first_choice es ≡ o
    → All (λ (c : ReasoningControl). c.mode ≢ default) cs
    → (choose o cs).mode ≡ default
    → cs ≡ []
unfolding choose
no_switch es cs (some e) f h k =
    absurd (first_choice_mode es e f (sym (choose_effort_mode e cs) ∙ k))
no_switch es [] none f h k = refl
no_switch es (c ∷ cs) none f h k = absurd (h.0 (sym (keep_budget_mode c c.budget_tokens _) ∙ k))
