-- ===== src/Prelude/Order.antt =====
-- Total preorders as Python's `sorted` compares keys, and how tuples combine them.
use Prim.Native.Nat.{ℕ, suc, ◌*◌, ◌≤◌}
use mathlib.Core.Path.{◌≡◌}
use mathlib.Core.Logic.{◌⊎◌}
use mathlib.Core.Bool.{Bool, true, false}
use native.Mathlib.Omega.{arith}
use buddy2api.Prelude.Tests.{leb, if◌then◌else◌, leb→le, le→leb}
use buddy2api.Prelude.Int.{ℤ, leb_ℤ}

pub record Order {ℓ} (K : Type ℓ) : Type ℓ where
  pub leq : K → K → Bool
  pub total : (a b : K) → (leq a b ≡ true) ⊎ (leq b a ≡ true)
  pub trans : (a b c : K) → leq a b ≡ true → leq b c ≡ true → leq a c ≡ true

pub leb_total : (a b : ℕ) → (leb a b ≡ true) ⊎ (leb b a ≡ true)
leb_total a b = ground arith

pub leb_trans : (a b c : ℕ) → leb a b ≡ true → leb b c ≡ true → leb a c ≡ true
leb_trans a b c h k = ground arith

abbrev pub nat_order : Order ℕ
nat_order = record { leq = leb; total = leb_total; trans = leb_trans }

pub leb_ℤ_total : (a b : ℤ) → (leb_ℤ a b ≡ true) ⊎ (leb_ℤ b a ≡ true)
leb_ℤ_total a b = ground arith

pub leb_ℤ_trans : (a b c : ℤ) → leb_ℤ a b ≡ true → leb_ℤ b c ≡ true → leb_ℤ a c ≡ true
leb_ℤ_trans a b c h k = ground arith

abbrev pub int_order : Order ℤ
int_order = record { leq = leb_ℤ; total = leb_ℤ_total; trans = leb_ℤ_trans }

-- A negated component.
abbrev pub descending {ℓ} : {K : Type ℓ} → Order K → Order K
descending o = record {
  leq = λ a b. o.leq b a;
  total = λ a b. o.total b a;
  trans = λ a b c h k. o.trans c b a k h;
}

-- A tuple: the first component decides unless it is equal.
module _ {ℓ κ} {A : Type ℓ} {B : Type κ} (o : Order A) (p : Order B) where
  abbrev pub lex_leq : A × B → A × B → Bool
  lex_leq (a, b) (c, d) = if o.leq a c then (if o.leq c a then p.leq b d else true) else false

  pub lex_total : (x y : A × B) → (lex_leq x y ≡ true) ⊎ (lex_leq y x ≡ true)
  lex_total (a, b) (c, d) = ground (arith, o.total a c, p.total b d)

  pub lex_trans : (x y z : A × B) → lex_leq x y ≡ true → lex_leq y z ≡ true → lex_leq x z ≡ true
  lex_trans (a, b) (c, d) (e, f) h k =
      ground (arith, o.trans a c e, o.trans c e a, o.trans e a c, p.trans b d f)

  abbrev pub lex : Order (A × B)
  lex = record { leq = lex_leq; total = lex_total; trans = lex_trans }

module _ {A B : Type 0} (o : Order A) (p : Order B) where
  -- What a comparison of tuples says of their first components, and of the rest where these are equal.
  pub lex-first : (a c : A) (b d : B) → lex_leq o p (a, b) (c, d) ≡ true → o.leq a c ≡ true
  lex-first a c b d h = ground arith

  pub lex-second :
      (a c : A) (b d : B) → lex_leq o p (a, b) (c, d) ≡ true → o.leq c a ≡ true → p.leq b d ≡ true
  lex-second a c b d h k = ground arith

-- A quotient `num / den` with a positive denominator.
pub record Ratio : Type 0 where
  pub num : ℕ
  pub den_pred : ℕ

abbrev pub ratio_leq : Ratio → Ratio → Bool
ratio_leq a b = leb (a.num * suc b.den_pred) (b.num * suc a.den_pred)

pub ratio_total : (a b : Ratio) → (ratio_leq a b ≡ true) ⊎ (ratio_leq b a ≡ true)
ratio_total a b = leb_total (a.num * suc b.den_pred) (b.num * suc a.den_pred)

pub mul_le : (a b c : ℕ) → a ≤ b → a * c ≤ b * c
mul_le a b c h = grind arith

mul_cancel : (a b c : ℕ) → a * suc c ≤ b * suc c → a ≤ b
mul_cancel a b c h = grind arith

ratio_chain :
    (a p b q c r : ℕ) → a * suc q ≤ b * suc p → b * suc r ≤ c * suc q → a * suc r ≤ c * suc p
ratio_chain a p b q c r h k = mul_cancel (a * suc r) (c * suc p) q (
    omega
      (arith, mul_le (a * suc q) (b * suc p) (suc r) h, mul_le (b * suc r) (c * suc q) (suc p) k))

pub ratio_trans :
    (a b c : Ratio) → ratio_leq a b ≡ true → ratio_leq b c ≡ true → ratio_leq a c ≡ true
ratio_trans a b c h k =
    le→leb _ _
      (ratio_chain a.num a.den_pred b.num b.den_pred c.num c.den_pred (leb→le _ _ h) (leb→le _ _ k))

abbrev pub ratio_order : Order Ratio
ratio_order = record { leq = ratio_leq; total = ratio_total; trans = ratio_trans }
