-- ===== src/ContextBudget/Limit.antt =====
-- context_budget.py, `input_limit`: the room for the prompt.
use buddy2api.Prelude.{ℕ, zero, suc, ◌+◌, ◌/◌, ◌≤◌, ◌<◌, ◌≡◌, max, arith}
use buddy2api.History.{Fields}
use buddy2api.ContextBudget.{
  Builtins, asked, reserve_for, limit_for, input_limit, max_output_reserve,
}

-- The limit leaves room for a prompt, never exceeds the budget, and keeps back what the client asks for, up to the cap.
abbrev pub IsRoom : ℕ → ℕ → ℕ → Type 0
IsRoom wanted budget limit =
    (1 ≤ limit)
    × (limit ≤ max 1 budget)
    × (max_output_reserve < budget → budget ≤ limit + max_output_reserve)
    × (0 < wanted → wanted ≤ max_output_reserve → wanted < budget → limit + wanted ≡ budget)

half : (n : ℕ) → n / 2 ≤ n
half n = omega arith

room : (wanted budget : ℕ) → IsRoom wanted budget (limit_for (reserve_for wanted) budget)
room zero budget = (
  ground (arith, half budget),
  ground (arith, half budget),
  λ h. ground (arith, half budget),
  λ z. absurd (omega (arith, z)),
)
room (suc n) budget = (
  ground (arith, half budget),
  ground (arith, half budget),
  λ h. ground (arith, half budget),
  λ z c l. ground (arith, half budget),
)

-- The limit is at least 1 and at most the budget; above the cap of the reserve it is the budget less at most the cap; and an output that the client asks for, within the
-- cap and below the budget, is kept back exactly.
pub input_limit-IsRoom :
    (py : Builtins) (payload : Fields) (budget : ℕ)
    → IsRoom (asked py payload) budget (input_limit py payload budget)
unfolding input_limit
input_limit-IsRoom py payload budget = room (asked py payload) budget
