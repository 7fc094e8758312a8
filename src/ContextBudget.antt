-- ===== src/ContextBudget.antt =====
-- context_budget.py: how much of a chat is sent, and the one retry with a shorter history.
-- Python's `int()` and `str.lower()` are arguments: `int` gives `none` where it raises.
pub mod Limit
pub mod Rejection
pub mod Guard
pub mod Policy
pub mod Prepared
pub mod Retried
mod Tests
use Prim.Native.String.{[] as empty, ◌∷◌ as ◌◁◌, ◌++◌ as ◌+++◌}
use Prim.Native.Char.{code}
use buddy2api.Prelude.{
  ℕ, zero, suc, ◌+◌, ◌-◌, ◌/◌, max, min, Bool, true, false, not, ◌&&◌, ◌||◌, Option, none, some,
  List, [], ◌∷◌, ◌++◌, String, str_eq, leb, ltb, ◌==◌, if◌then◌else◌, length, map,
}
use buddy2api.Prelude.Int.{ℤ, pos, negsuc, at_least}
use buddy2api.Prelude.Texts.{strip, lstrip, split, partition, is_empty, str_in}
use buddy2api.History.{
  Json, null, plain, str, arr, obj, Items, no_items, item, Fields, no_fields, field, get, to_list,
  flatten, estimate_prompt_tokens, trim_history,
}

abbrev pub output_reserve : ℕ
output_reserve = 8192

abbrev pub max_output_reserve : ℕ
max_output_reserve = 32768

abbrev pub huge_prompt_tokens : ℕ
huge_prompt_tokens = 100000

abbrev pub max_budget : ℕ
max_budget = 2000000

-- What Python brings.
pub record Builtins : Type 0 where
  pub to_int : Json → Option ℤ
  pub lower : String → String

-- `raw is None`
abbrev pub not_none : Option Json → Option Json
not_none (some null) = none
not_none o = o

abbrev pub or_else {ℓ} : {A : Type ℓ} → Option A → Option A → Option A
or_else (some a) b = some a
or_else none b = b

abbrev pub int_of : Builtins → Option Json → ℕ
int_of py none = 0
int_of py (some j) = elim (py.to_int j) [ none ↦ 0 | some n ↦ at_least 0 n ]

-- The tokens of output that the client asks for, 0 where it asks for none.
unfoldable pub asked : Builtins → Fields → ℕ
asked py payload =
    int_of py (
      or_else (not_none (get "max_tokens" payload))
        (not_none (get "max_completion_tokens" payload)))

abbrev pub reserve_for : ℕ → ℕ
reserve_for zero = output_reserve
reserve_for (suc n) = min (suc n) max_output_reserve

abbrev pub limit_for : ℕ → ℕ → ℕ
limit_for reserve budget = if leb budget reserve then max 1 (budget / 2) else budget - reserve

unfoldable pub input_limit : Builtins → Fields → ℕ → ℕ
unfolding asked
input_limit py payload budget = limit_for (reserve_for (asked py payload)) budget

abbrev pub messages_of : Option Json → Option (List Json)
messages_of (some (arr items)) = some (to_list items)
messages_of _ = none

abbrev pub cut_messages : Fields → ℕ → Option (List Json) → Fields × Bool
cut_messages payload limit none = (payload, false)
cut_messages payload limit (some messages) =
    let (trimmed, segments) = trim_history payload "messages" messages limit in
    if leb limit 0 || leb (estimate_prompt_tokens payload) limit
    then (payload, false)
    else (trimmed, ltb (length (flatten segments)) (length messages))

unfoldable pub trim_to_limit : Fields → ℕ → Fields × Bool
unfolding trim_history
trim_to_limit payload limit = cut_messages payload limit (messages_of (get "messages" payload))

-- `int(str(value).strip())` within 0 and the cap, 0 where it is no number.
abbrev pub parse_channel_budget : Builtins → String → ℕ
parse_channel_budget py value = min (int_of py (some (str (strip value)))) max_budget

abbrev pub entry : Builtins → String → Option (String × String) → String × ℕ
entry py part none = (strip part, parse_channel_budget py empty)
entry py part (some (name, value)) = (strip name, parse_channel_budget py value)

-- The table of CB_PRETRIM_CHANNELS, the last entry of a name first; `;` is replaced by `,`.
abbrev pub add_entry : String × ℕ → List (String × ℕ) → List (String × ℕ)
add_entry (name, budget) table = if is_empty name then table else (name, budget) ∷ table

unfoldable pub read_table : Builtins → List (String × ℕ) → List String → List (String × ℕ)
unfolding partition strip
read_table py table [] = table
read_table py table (part ∷ parts) =
    read_table py (add_entry (entry py part (partition "=" part)) table) parts

unfoldable pub commas : String → String
commas empty = empty
commas (c ◁ s) = if code c == code ";" then "," ◁ commas s else c ◁ commas s

unfoldable pub pretrim_channels : Builtins → String → List (String × ℕ)
unfolding read_table commas split strip
pretrim_channels py raw =
    if is_empty (strip raw) then [] else read_table py [] (split "," (commas raw))

abbrev pub lookup : String → List (String × ℕ) → Option ℕ
lookup name [] = none
lookup name ((key, budget) ∷ table) = if str_eq key name then some budget else lookup name table

-- The configuration: `loomy` is the answer of `loomy_input_budget`, and unset texts are empty.
pub record Config : Type 0 where
  pub loomy : ℕ
  pub pretrim : String
  pub saved : String → Option ℕ
  pub everywhere : String

abbrev pub default_to : Option ℕ → ℕ → ℕ
default_to none n = n
default_to (some m) n = m

unfoldable pub channel_input_budget : Builtins → Config → String → ℕ
unfolding pretrim_channels
channel_input_budget py cfg channel =
    if str_eq channel "loomy"
    then cfg.loomy
    else default_to (or_else (lookup channel (pretrim_channels py cfg.pretrim)) (cfg.saved channel))
        (parse_channel_budget py cfg.everywhere)

abbrev pub if_changed : Fields → Fields × Bool → Fields × Bool
if_changed payload (trimmed, true) = (trimmed, true)
if_changed payload (trimmed, false) = (payload, false)

-- `prepare_dispatch` under the channel's budget.
unfoldable pub prepare : Builtins → ℕ → Fields → Fields × Bool
unfolding input_limit trim_to_limit
prepare py zero payload = (payload, false)
prepare py (suc n) payload =
    let limit = input_limit py payload (suc n) in
    if leb (estimate_prompt_tokens payload) limit
    then (payload, false)
    else if_changed payload (trim_to_limit payload limit)

unfoldable pub recovery_payload : Fields → Fields × Bool
unfolding trim_to_limit
recovery_payload payload = trim_to_limit payload (max 1 (estimate_prompt_tokens payload / 2))
