-- ===== src/Prelude/TextOrder.antt =====
-- Python's order of two `str`: by their first code points that differ, and a prefix comes first.
use Prim.Native.Nat.{ℕ}
use Prim.Native.Char.{code}
use Prim.Native.String.{String, [] as empty, ◌∷◌ as ◌◁◌}
use mathlib.Core.Path.{◌≡◌, refl}
use mathlib.Core.Logic.{◌⊎◌, inl, inr}
use mathlib.Core.Bool.{Bool, true, false}
use native.Mathlib.Omega.{arith}
use buddy2api.Prelude.Tests.{ltb, ◌==◌, if◌then◌else◌}
use buddy2api.Prelude.Order.{Order}

abbrev by_code : ℕ → ℕ → Bool → Bool
by_code a b rest = if a == b then rest else ltb a b

by_code_total :
    (a b : ℕ) (x y : Bool)
    → (x ≡ true) ⊎ (y ≡ true)
    → (by_code a b x ≡ true) ⊎ (by_code b a y ≡ true)
by_code_total a b x y h = ground arith

by_code_trans :
    (a b c : ℕ) (x y z : Bool)
    → (x ≡ true → y ≡ true → z ≡ true)
    → by_code a b x ≡ true
    → by_code b c y ≡ true
    → by_code a c z ≡ true
by_code_trans a b c x y z rest h k = ground arith

abbrev pub text_leq : String → String → Bool
text_leq empty t = true
text_leq (c ◁ s) empty = false
text_leq (c ◁ s) (d ◁ t) = by_code (code c) (code d) (text_leq s t)

pub text_leq_total : (s t : String) → (text_leq s t ≡ true) ⊎ (text_leq t s ≡ true)
text_leq_total empty t = inl refl
text_leq_total (c ◁ s) empty = inr refl
text_leq_total (c ◁ s) (d ◁ t) =
    by_code_total (code c) (code d) (text_leq s t) (text_leq t s) (text_leq_total s t)

pub text_leq_trans :
    (s t u : String) → text_leq s t ≡ true → text_leq t u ≡ true → text_leq s u ≡ true
text_leq_trans empty t u h k = refl
text_leq_trans (c ◁ s) empty u h k = ground arith
text_leq_trans (c ◁ s) (d ◁ t) empty h k = ground arith
text_leq_trans (c ◁ s) (d ◁ t) (e ◁ u) h k =
    by_code_trans (code c) (code d) (code e) (text_leq s t) (text_leq t u) (text_leq s u)
      (text_leq_trans s t u) h k

abbrev pub text_order : Order String
text_order = record { leq = text_leq; total = text_leq_total; trans = text_leq_trans }
