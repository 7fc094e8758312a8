-- ===== src/ReasoningControls/Canonical.antt =====
-- reasoning_controls.py: what a resolved control and a normalized request look like.
use Prim.Native.String.{String}
use buddy2api.Prelude.{
  ◌≡◌, refl, Bool, true, false, ◌||◌, inl, inr, Bool-cases, Option, none, some, List, [], ◌∷◌, ◌++◌,
  str_eq, if◌then◌else◌, All, subst,
}
use buddy2api.Prelude.Texts.{strip, is_empty, str_in}
use buddy2api.Prelude.Member.{In, In-All}
use buddy2api.History.{Json, null, plain, str, arr, obj, Fields, is_zero_text}
use buddy2api.ReasoningControls.{
  Checked, invalid, valid, ControlMode, disabled, enabled, leveled, ReasoningControl, alias_of,
  effort_aliases, disabled_values, enabled_values, level_or_refuse, of_word, from_effort,
  from_switch, from_disable_switch, is_negative, from_budget, is_bool_text, add_candidate, collect,
  first_choice, is_default, with_budget, keep_budget, choose, first_budget, native_control_group,
  is_native, has_conflict,
}
use buddy2api.ReasoningControls.Normalized.{
  effort_checks, switch_checks, from_type, then_efforts, resolve_reasoning_control,
}

abbrev pub levels : List String
levels = "minimal" ∷ "low" ∷ "medium" ∷ "high" ∷ "xhigh" ∷ "max" ∷ "ultra" ∷ []

-- An effort stands with the mode for it and with no other.
abbrev pub HasLevel : ControlMode → Option String → Type 0
HasLevel leveled (some e) = str_in e levels ≡ true
HasLevel leveled none = ⊥
HasLevel _ none = Unit
HasLevel _ (some e) = ⊥

abbrev pub IsCanonical : ReasoningControl → Type 0
IsCanonical c = HasLevel c.mode c.effort

-- What a check may give: an error, nothing, or a canonical control.
abbrev pub Gives : Checked (Option ReasoningControl) → Type 0
Gives (invalid e) = Unit
Gives (valid none) = Unit
Gives (valid (some c)) = IsCanonical c

if-Gives :
    (b : Bool) (x y : Checked (Option ReasoningControl))
    → Gives x
    → Gives y
    → Gives (if b then x else y)
if-Gives true x y h k = h
if-Gives false x y h k = k

if_mode : (b : Bool) → HasLevel (if b then enabled else disabled) none
if_mode true = tt
if_mode false = tt

if_mode' : (b : Bool) → HasLevel (if b then disabled else enabled) none
if_mode' true = tt
if_mode' false = tt

alias-Gives :
    (l : List (String × String)) (word source : String)
    → ((k v : String) → In (k, v) l → str_in v levels ≡ true)
    → Gives (level_or_refuse (alias_of l word) source)
alias-Gives [] word source h = tt
alias-Gives ((k, v) ∷ l) word source h = elim (Bool-cases (str_eq k word)) [
  | inl t ↦ rw t (h k v (inl refl))
  | inr f ↦ rw f (alias-Gives l word source (λ j u i. h j u (inr i)))
]

aliases_known : (k v : String) → In (k, v) effort_aliases → str_in v levels ≡ true
aliases_known k v i =
    In-All (λ (p : String × String). str_in p.1 levels ≡ true) (k, v) effort_aliases
      (refl, (refl, (refl, (refl, (refl, (refl, (refl, (refl, (refl, (refl, tt)))))))))) i

of_word-Gives : (word source : String) → Gives (of_word word source)
of_word-Gives word source = if-Gives (is_empty word) _ _ tt (
    if-Gives (str_eq word "default") _ _ tt (
      if-Gives (str_in word disabled_values) _ _ tt (
        if-Gives (str_in word enabled_values) _ _ tt
          (alias-Gives effort_aliases word source aliases_known))))

from_budget-Gives : (j : Option Json) (source : String) → Gives (from_budget j source)
unfolding from_budget
from_budget-Gives none source = tt
from_budget-Gives (some null) source = tt
from_budget-Gives (some (plain s)) source =
    if-Gives (is_bool_text s || is_negative s) _ _ tt (if_mode' (is_zero_text s))
from_budget-Gives (some (str s)) source = tt
from_budget-Gives (some (arr js)) source = tt
from_budget-Gives (some (obj d)) source = tt

from_disable_switch-Gives :
    (j : Option Json) (source : String) → Gives (from_disable_switch j source)
unfolding from_disable_switch
from_disable_switch-Gives none source = tt
from_disable_switch-Gives (some null) source = tt
from_disable_switch-Gives (some (plain s)) source =
    if-Gives (is_zero_text s) _ _ tt
      (if-Gives (str_eq s "True" || (str_eq s "1" || str_eq s "1.0")) _ _ tt tt)
from_disable_switch-Gives (some (str s)) source = tt
from_disable_switch-Gives (some (arr js)) source = tt
from_disable_switch-Gives (some (obj d)) source = tt

-- The same of a list of controls, of the first choice and of what is resolved.
abbrev AllGiven : Checked (List ReasoningControl) → Type 0
AllGiven (invalid e) = Unit
AllGiven (valid cs) = All IsCanonical cs

abbrev Chosen : Option ReasoningControl → Type 0
Chosen none = Unit
Chosen (some c) = IsCanonical c

abbrev Resolved : Checked ReasoningControl → Type 0
Resolved (invalid e) = Unit
Resolved (valid c) = IsCanonical c

add_candidate-AllGiven :
    (c : ReasoningControl) (r : Checked (List ReasoningControl))
    → IsCanonical c
    → AllGiven r
    → AllGiven (add_candidate (some c) r)
add_candidate-AllGiven c (invalid e) h k = tt
add_candidate-AllGiven c (valid cs) h k = (h, k)

collect-AllGiven :
    (checks : List (Checked (Option ReasoningControl)))
    → All Gives checks
    → AllGiven (collect checks)
unfolding collect
collect-AllGiven [] h = tt
collect-AllGiven (invalid m ∷ checks) h = tt
collect-AllGiven (valid none ∷ checks) h = collect-AllGiven checks h.1
collect-AllGiven (valid (some c) ∷ checks) h =
    add_candidate-AllGiven c (collect checks) h.0 (collect-AllGiven checks h.1)

first_choice-Chosen : (cs : List ReasoningControl) → All IsCanonical cs → Chosen (first_choice cs)
first_choice-Chosen [] h = tt
first_choice-Chosen (d ∷ cs) h = elim (Bool-cases (is_default d.mode)) [
  | inl t ↦ rw t (first_choice-Chosen cs h.1)
  | inr f ↦ rw f h.0
]

with_budget-IsCanonical :
    (c : ReasoningControl) (b : Option String) → IsCanonical c → IsCanonical (with_budget c b)
with_budget-IsCanonical c none h = h
with_budget-IsCanonical c (some s) h = h

keep_budget-IsCanonical :
    (c : ReasoningControl) (own b : Option String)
    → IsCanonical c
    → IsCanonical (keep_budget c own b)
keep_budget-IsCanonical c none b h = with_budget-IsCanonical c b h
keep_budget-IsCanonical c (some s) b h = h

choose-IsCanonical :
    (o : Option ReasoningControl) (cs : List ReasoningControl)
    → Chosen o
    → All IsCanonical cs
    → IsCanonical (choose o cs)
unfolding choose
choose-IsCanonical (some c) cs h k = if_native (is_native (native_control_group c.source))
  where
    if_native :
        (b : Bool)
        → IsCanonical
            (if b then with_budget c (first_budget (native_control_group c.source) cs) else c)
    if_native true = with_budget-IsCanonical c _ h
    if_native false = h
choose-IsCanonical none [] h k = tt
choose-IsCanonical none (c ∷ cs) h k = keep_budget-IsCanonical c c.budget_tokens _ k.0

if-Resolved :
    (b : Bool) (x y : Checked ReasoningControl)
    → Resolved x
    → Resolved y
    → Resolved (if b then x else y)
if-Resolved true x y h k = h
if-Resolved false x y h k = k

then_efforts-Resolved :
    (es cs : Checked (List ReasoningControl))
    → AllGiven es
    → AllGiven cs
    → Resolved (then_efforts es cs)
then_efforts-Resolved (invalid m) cs h k = tt
then_efforts-Resolved (valid es) (invalid m) h k = tt
then_efforts-Resolved (valid es) (valid cs) h k =
    if-Resolved (has_conflict "reasoning" (es ++ cs)) _ _ tt (
      if-Resolved (has_conflict "thinking" (es ++ cs)) _ _ tt
        (choose-IsCanonical (first_choice es) cs (first_choice-Chosen es h) k))

module _ (lower : String → String) where
  from_effort-Gives : (j : Option Json) (source : String) → Gives (from_effort lower j source)
  unfolding from_effort
  from_effort-Gives none source = tt
  from_effort-Gives (some null) source = tt
  from_effort-Gives (some (plain s)) source =
      if-Gives (is_bool_text s) _ _ (if_mode (str_eq s "True")) tt
  from_effort-Gives (some (str s)) source = of_word-Gives (lower (strip s)) source
  from_effort-Gives (some (arr js)) source = tt
  from_effort-Gives (some (obj d)) source = tt

  from_switch-Gives : (j : Option Json) (source : String) → Gives (from_switch lower j source)
  unfolding from_switch
  from_switch-Gives none source = tt
  from_switch-Gives (some null) source = tt
  from_switch-Gives (some (plain s)) source =
      if-Gives (is_bool_text s || (str_eq s "0" || str_eq s "1")) _ _
        (if_mode (str_eq s "True" || str_eq s "1")) tt
  from_switch-Gives (some (str s)) source =
      if-Gives (str_in (lower (strip s)) disabled_values) _ _ tt
        (if-Gives (str_in (lower (strip s)) enabled_values) _ _ tt tt)
  from_switch-Gives (some (arr js)) source = tt
  from_switch-Gives (some (obj d)) source = tt

  from_type-Gives : (j : Option Json) → Gives (from_type lower j)
  unfolding from_type
  from_type-Gives none = tt
  from_type-Gives (some (str s)) =
      if-Gives (str_eq (lower (strip s)) "disabled") _ _ tt
        (if-Gives (str_in (lower (strip s)) ("enabled" ∷ "adaptive" ∷ [])) _ _ tt tt)
  from_type-Gives (some null) = tt
  from_type-Gives (some (plain s)) = tt
  from_type-Gives (some (arr js)) = tt
  from_type-Gives (some (obj d)) = tt

  effort_checks-Gives :
      (prefer_nested : Bool) (payload : Fields)
      → All Gives (effort_checks lower prefer_nested payload)
  effort_checks-Gives true payload = (
    from_effort-Gives _ _,
    (
      from_effort-Gives _ _,
      (
        from_effort-Gives _ _,
        (
          from_effort-Gives _ _,
          (from_effort-Gives _ _, (from_effort-Gives _ _, (from_effort-Gives _ _, tt))),
        ),
      ),
    ),
  )
  effort_checks-Gives false payload = (
    from_effort-Gives _ _,
    (
      from_effort-Gives _ _,
      (
        from_effort-Gives _ _,
        (
          from_effort-Gives _ _,
          (from_effort-Gives _ _, (from_effort-Gives _ _, (from_effort-Gives _ _, tt))),
        ),
      ),
    ),
  )

  switch_checks-Gives : (payload : Fields) → All Gives (switch_checks lower payload)
  switch_checks-Gives payload = (
    from_type-Gives _,
    (
      from_budget-Gives _ _,
      (
        from_switch-Gives _ _,
        (
          from_budget-Gives _ _,
          (from_switch-Gives _ _, (from_switch-Gives _ _, (from_disable_switch-Gives _ _, tt))),
        ),
      ),
    ),
  )

  -- A control that is resolved has one of the seven efforts if its mode asks for one, and no effort otherwise.
  pub resolve_reasoning_control-IsCanonical :
      (prefer_nested : Bool) (payload : Fields) (c : ReasoningControl)
      → resolve_reasoning_control lower prefer_nested payload ≡ valid c
      → IsCanonical c
  unfolding resolve_reasoning_control
  resolve_reasoning_control-IsCanonical prefer_nested payload c e = subst Resolved e (
      then_efforts-Resolved (collect (effort_checks lower prefer_nested payload))
        (collect (switch_checks lower payload))
        (collect-AllGiven (effort_checks lower prefer_nested payload)
          (effort_checks-Gives prefer_nested payload))
        (collect-AllGiven (switch_checks lower payload) (switch_checks-Gives payload)))
