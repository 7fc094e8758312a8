-- ===== src/ModelCapacity.antt =====
-- model_capacity.py: the capacities of a catalog row, and the cap on the output that a client asks for.
-- Python's view of a JSON value as an `int` is an argument: `none` where its type is another one.
pub mod Clamped
mod Tests
use buddy2api.Prelude.{
  ℕ, zero, suc, Bool, true, false, Option, none, some, List, [], ◌∷◌, String, ltb, if◌then◌else◌,
}
use buddy2api.Prelude.Int.{ℤ, pos, negsuc}
use buddy2api.History.{Json, obj, Fields, get, set_field}

abbrev pub default_context_window : ℕ
default_context_window = 262144

abbrev pub default_max_output_tokens : ℕ
default_max_output_tokens = 32768

pub record Numbers : Type 0 where
  pub as_int : Json → Option ℤ
  pub of_nat : ℕ → Json

-- `type(value) is int and value > 0`
abbrev pub positive_int : Option ℤ → Option ℕ
positive_int (some (pos (suc n))) = some (suc n)
positive_int _ = none

abbrev pub int_at : Numbers → Fields → String → Option ℤ
int_at py row name = elim (get name row) [ none ↦ none | some j ↦ py.as_int j ]

-- The loop over the names of one capacity.
unfoldable pub first_positive : Numbers → Fields → List String → Option ℕ
first_positive py row [] = none
first_positive py row (name ∷ names) = elim (positive_int (int_at py row name)) [
  | none ↦ first_positive py row names
  | some n ↦ some n
]

pub record Capacity : Type 0 where
  pub context_window : Option ℕ
  pub max_output_tokens : Option ℕ

abbrev pub row_of : Option Json → Option Fields
row_of (some (obj d)) = some d
row_of _ = none

unfoldable pub capacity_fields : Numbers → Option Json → Capacity
unfolding first_positive
capacity_fields py row = elim (row_of row) [
  | none ↦ record { context_window = none; max_output_tokens = none }
  | some d ↦ record {
    context_window =
        first_positive py d ("context_window" ∷ "maxInputTokens" ∷ "max_input_tokens" ∷ []);
    max_output_tokens = first_positive py d ("max_output_tokens" ∷ "maxOutputTokens" ∷ []);
  }
]

-- A capacity with its source: true is "catalog" and false is "fallback".
abbrev pub with_default : Option ℕ → ℕ → ℕ × Bool
with_default none n = (n, false)
with_default (some m) n = (m, true)

unfoldable pub discovery_capacity : Numbers → Option Json → (ℕ × Bool) × (ℕ × Bool)
unfolding capacity_fields
discovery_capacity py row =
    let fields = capacity_fields py row in
    (
      with_default fields.context_window default_context_window,
      with_default fields.max_output_tokens default_max_output_tokens,
    )

-- `type(value) is int and value > limit`: a value of another type, such as a float above the limit, is passed on.
abbrev pub is_int_above : ℕ → Option ℤ → Bool
is_int_above limit (some (pos n)) = ltb limit n
is_int_above limit _ = false

abbrev pub clamp_key : Numbers → ℕ → String → Fields → Fields
clamp_key py limit key payload =
    if is_int_above limit (int_at py payload key)
    then set_field key (py.of_nat limit) payload
    else payload

abbrev pub clamp_to : Numbers → Fields → Option ℕ → Fields
clamp_to py payload none = payload
clamp_to py payload (some limit) =
    clamp_key py limit "max_completion_tokens" (clamp_key py limit "max_tokens" payload)

unfoldable pub clamp_output_tokens : Numbers → Fields → Option Json → Fields
unfolding capacity_fields
clamp_output_tokens py payload model =
    clamp_to py payload (capacity_fields py model).max_output_tokens
