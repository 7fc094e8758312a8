-- ===== src/ReasoningControls/Tests.antt =====
-- Requests of several clients, and the theorems at them.
use buddy2api.Prelude.{◌≡◌, refl, true, false, some, String}
use buddy2api.History.{str, plain, obj, Fields, no_fields, field}
use buddy2api.Prelude.Texts.{strip}
use buddy2api.ContextBudget.Rejection.{starts_with}
use buddy2api.ReasoningControls.{
  valid, leveled, ReasoningControl, from_effort, from_switch, from_budget, collect,
  from_disable_switch, choose,
}
use buddy2api.ReasoningControls.Normalized.{
  from_type, chat_reasoning_effort, resolve_reasoning_control, normalize_chat_reasoning,
}
use buddy2api.ReasoningControls.Canonical.{IsCanonical, resolve_reasoning_control-IsCanonical}
use buddy2api.ReasoningControls.Idempotent.{
  IsNormal, normalize_chat_reasoning_idempotent, normalize_chat_reasoning-IsNormal,
}

-- The tests are in small letters.
abbrev lower : String → String
lower s = s

abbrev request : Fields
request = field "model" (str "m") (
    field "reasoning"
      (obj (field "effort" (str " x-high ") (field "budget_tokens" (plain "9") no_fields)))
      (field "think" (plain "True") no_fields))

abbrev normal : Fields
normal = field "model" (str "m") (
    field "reasoning" (obj (field "budget_tokens" (plain "9") no_fields))
      (field "reasoning_effort" (str "xhigh") no_fields))

request_normalizes : normalize_chat_reasoning lower true request ≡ valid normal
unfolding normalize_chat_reasoning collect from_effort strip from_type from_budget from_switch
    starts_with from_disable_switch choose chat_reasoning_effort
request_normalizes = refl

normalize_chat_reasoning_idempotent_example :
    normalize_chat_reasoning lower false normal ≡ valid normal
normalize_chat_reasoning_idempotent_example =
    normalize_chat_reasoning_idempotent lower (λ w i. refl) true false request normal
      request_normalizes

normalize_chat_reasoning-IsNormal_example : IsNormal request normal
normalize_chat_reasoning-IsNormal_example =
    normalize_chat_reasoning-IsNormal lower true request normal request_normalizes

abbrev xhigh : ReasoningControl
xhigh = record {
  mode = leveled;
  effort = some "xhigh";
  source = some "reasoning.effort";
  budget_tokens = some "9";
}

request_resolves : resolve_reasoning_control lower true request ≡ valid xhigh
unfolding resolve_reasoning_control collect from_effort strip from_type from_budget from_switch
    starts_with from_disable_switch choose
request_resolves = refl

resolve_reasoning_control-IsCanonical_example : IsCanonical xhigh
resolve_reasoning_control-IsCanonical_example =
    resolve_reasoning_control-IsCanonical lower true request xhigh request_resolves
