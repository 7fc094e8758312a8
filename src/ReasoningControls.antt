-- ===== src/ReasoningControls.antt =====
-- reasoning_controls.py: the ways in which clients ask for reasoning, as one field of a chat request.
-- A number is its text, as in History; `str.lower` is an argument. ReasoningControls/Normalized has `normalize_chat_reasoning`.
pub mod Normalized
pub mod Canonical
pub mod Keys
pub mod Cleaned
pub mod Clean
pub mod Reread
pub mod Switched
pub mod Idempotent
mod Tests
use Prim.Native.String.{[] as empty, ◌∷◌ as ◌◁◌, ◌++◌ as ◌+++◌}
use buddy2api.Prelude.{
  Bool, true, false, not, ◌&&◌, ◌||◌, Option, none, some, List, [], ◌∷◌, ◌++◌, String, str_eq,
  if◌then◌else◌,
}
use buddy2api.Prelude.Texts.{strip, is_empty, str_in}
use buddy2api.Prelude.Member.{keep}
use buddy2api.History.{
  Json, null, plain, str, arr, obj, Fields, no_fields, field, get, is_text, is_zero_text,
}
use buddy2api.ContextBudget.Rejection.{starts_with, join_lines}

-- A value, or the text of an InvalidReasoningControl.
pub data Checked {ℓ} (A : Type ℓ) : Type ℓ where
  invalid : String → Checked A
  valid : A → Checked A

pub data ControlMode : Type 0 where
  default disabled enabled leveled : ControlMode

pub record ReasoningControl : Type 0 where
  pub mode : ControlMode
  pub effort : Option String
  pub source : Option String
  pub budget_tokens : Option String

abbrev pub default_reasoning : ReasoningControl
default_reasoning = record { mode = default; effort = none; source = none; budget_tokens = none }

-- `ReasoningControl(mode, source=source)`
abbrev pub of_mode : ControlMode → String → ReasoningControl
of_mode mode source = record {
  mode = mode;
  effort = none;
  source = some source;
  budget_tokens = none;
}

abbrev pub of_level : String → String → ReasoningControl
of_level effort source = record {
  mode = leveled;
  effort = some effort;
  source = some source;
  budget_tokens = none;
}

-- The property `enabled`.
abbrev pub enabled_of : ControlMode → Option Bool
enabled_of disabled = some false
enabled_of enabled = some true
enabled_of leveled = some true
enabled_of default = none

abbrev pub disabled_values : List String
disabled_values = "none" ∷ "off" ∷ "disable" ∷ "disabled" ∷ "false" ∷ []

abbrev pub enabled_values : List String
enabled_values = "auto" ∷ "enable" ∷ "enabled" ∷ "adaptive" ∷ "on" ∷ "true" ∷ []

abbrev pub effort_aliases : List (String × String)
effort_aliases =
    ("minimal", "minimal")
    ∷ ("low", "low")
    ∷ ("medium", "medium")
    ∷ ("high", "high")
    ∷ ("xhigh", "xhigh")
    ∷ ("x-high", "xhigh")
    ∷ ("extra_high", "xhigh")
    ∷ ("extra-high", "xhigh")
    ∷ ("max", "max")
    ∷ ("ultra", "ultra")
    ∷ []

abbrev pub alias_of : List (String × String) → String → Option String
alias_of [] word = none
alias_of ((k, v) ∷ rest) word = if str_eq k word then some v else alias_of rest word

-- `_invalid`
abbrev pub refuse {ℓ} : {A : Type ℓ} → String → String → Checked A
refuse source message = invalid (source +++ (" " +++ message))

abbrev pub of_bool : Bool → String → ReasoningControl
of_bool b source = of_mode (if b then enabled else disabled) source

abbrev pub is_bool_text : String → Bool
is_bool_text s = str_eq s "True" || str_eq s "False"

abbrev pub level_or_refuse : Option String → String → Checked (Option ReasoningControl)
level_or_refuse none source =
    refuse source "must be one of none, minimal, low, medium, high, xhigh, max, or ultra"
level_or_refuse (some effort) source = valid (some (of_level effort source))

abbrev pub of_word : String → String → Checked (Option ReasoningControl)
of_word word source =
    if is_empty word
    then refuse source "must not be empty"
    else if str_eq word "default"
    then valid (some (of_mode default source))
    else if str_in word disabled_values
    then valid (some (of_mode disabled source))
    else if str_in word enabled_values
    then valid (some (of_mode enabled source))
    else level_or_refuse (alias_of effort_aliases word) source

module _ (lower : String → String) where
  -- `_from_effort`; `none` is a missing key.
  unfoldable pub from_effort : Option Json → String → Checked (Option ReasoningControl)
  from_effort none source = valid none
  from_effort (some null) source = valid none
  from_effort (some (plain s)) source =
      if is_bool_text s
      then valid (some (of_bool (str_eq s "True") source))
      else refuse source "must be a string"
  from_effort (some (str s)) source = of_word (lower (strip s)) source
  from_effort (some _) source = refuse source "must be a string"

  abbrev pub switch_word : String → String → Checked (Option ReasoningControl)
  switch_word word source =
      if str_in word disabled_values
      then valid (some (of_mode disabled source))
      else if str_in word enabled_values
      then valid (some (of_mode enabled source))
      else refuse source "must be a boolean or an enabled/disabled value"

  -- `_from_switch`
  unfoldable pub from_switch : Option Json → String → Checked (Option ReasoningControl)
  from_switch none source = valid none
  from_switch (some null) source = valid none
  from_switch (some (plain s)) source =
      if is_bool_text s || (str_eq s "0" || str_eq s "1")
      then valid (some (of_bool (str_eq s "True" || str_eq s "1") source))
      else refuse source "must be a boolean or an enabled/disabled value"
  from_switch (some (str s)) source = switch_word (lower (strip s)) source
  from_switch (some _) source = refuse source "must be a boolean or an enabled/disabled value"

-- `_from_disable_switch`
unfoldable pub from_disable_switch : Option Json → String → Checked (Option ReasoningControl)
from_disable_switch none source = valid none
from_disable_switch (some null) source = valid none
from_disable_switch (some (plain s)) source =
    if is_zero_text s
    then valid none
    else if str_eq s "True" || (str_eq s "1" || str_eq s "1.0")
    then valid (some (of_mode disabled source))
    else refuse source "must be a boolean"
from_disable_switch (some _) source = refuse source "must be a boolean"

-- `value < 0` of a number
unfoldable pub is_negative : String → Bool
is_negative s = starts_with "-" s && not (is_zero_text s)

-- `_from_budget`
unfoldable pub from_budget : Option Json → String → Checked (Option ReasoningControl)
unfolding is_negative
from_budget none source = valid none
from_budget (some null) source = valid none
from_budget (some (plain s)) source =
    if is_bool_text s || is_negative s
    then refuse source "must be a non-negative number"
    else valid (
        some (record {
          mode = if is_zero_text s then disabled else enabled;
          effort = none;
          source = some source;
          budget_tokens = some s;
        }))
from_budget (some _) source = refuse source "must be a non-negative number"

-- The candidates, in order; the first check that raises ends it.
abbrev pub add_candidate :
    Option ReasoningControl → Checked (List ReasoningControl) → Checked (List ReasoningControl)
add_candidate none rest = rest
add_candidate (some c) (valid cs) = valid (c ∷ cs)
add_candidate (some c) (invalid e) = invalid e

unfoldable pub collect : List (Checked (Option ReasoningControl)) → Checked (List ReasoningControl)
collect [] = valid []
collect (invalid e ∷ checks) = invalid e
collect (valid c ∷ checks) = add_candidate c (collect checks)

-- `_native_control_group`
abbrev pub in_group : String → String → Bool
in_group group source = str_eq source group || starts_with (group +++ ".") source

abbrev pub native_control_group : Option String → Option String
native_control_group none = none
native_control_group (some source) =
    if in_group "reasoning" source
    then some "reasoning"
    else if in_group "thinking" source
    then some "thinking"
    else some source

abbrev pub same_group : Option String → Option String → Bool
same_group none none = true
same_group (some a) (some b) = str_eq a b
same_group _ _ = false

-- `control.enabled is value` for a control of the group
abbrev pub says_bool : Bool → Option Bool → Bool
says_bool true (some true) = true
says_bool false (some false) = true
says_bool _ _ = false

abbrev pub says : String → Bool → ReasoningControl → Bool
says group value c =
    same_group (native_control_group c.source) (some group) && says_bool value (enabled_of c.mode)

abbrev pub any_control : (ReasoningControl → Bool) → List ReasoningControl → Bool
any_control p [] = false
any_control p (c ∷ cs) = p c || any_control p cs

-- `_validate_native_object_conflicts`
abbrev pub has_conflict : String → List ReasoningControl → Bool
has_conflict group cs = any_control (says group true) cs && any_control (says group false) cs

-- `next((c for c in cs if c.mode != "default"), None)` and the first budget
abbrev pub is_default : ControlMode → Bool
is_default default = true
is_default _ = false

abbrev pub first_choice : List ReasoningControl → Option ReasoningControl
first_choice [] = none
first_choice (c ∷ cs) = if is_default c.mode then first_choice cs else some c

abbrev pub or_budget : Option String → Option String → Option String
or_budget none b = b
or_budget (some a) b = some a

abbrev pub first_budget : Option String → List ReasoningControl → Option String
first_budget group [] = none
first_budget group (c ∷ cs) =
    let rest = first_budget group cs in
    if same_group (native_control_group c.source) group
    then or_budget c.budget_tokens rest
    else rest

abbrev pub is_native : Option String → Bool
is_native none = false
is_native (some group) = str_in group ("reasoning" ∷ "thinking" ∷ [])

abbrev pub with_budget : ReasoningControl → Option String → ReasoningControl
with_budget c none = c
with_budget c (some b) = record c { budget_tokens = some b }

abbrev pub keep_budget : ReasoningControl → Option String → Option String → ReasoningControl
keep_budget c none b = with_budget c b
keep_budget c (some own) b = c

abbrev pub choose_effort : ReasoningControl → List ReasoningControl → ReasoningControl
choose_effort c switches =
    let group = native_control_group c.source in
    if is_native group then with_budget c (first_budget group switches) else c

abbrev pub choose_switch : List ReasoningControl → ReasoningControl
choose_switch [] = default_reasoning
choose_switch (c ∷ cs) =
    keep_budget c c.budget_tokens (first_budget (native_control_group c.source) (c ∷ cs))

unfoldable pub choose : Option ReasoningControl → List ReasoningControl → ReasoningControl
choose (some c) switches = choose_effort c switches
choose none switches = choose_switch switches
