-- ===== src/Prelude/Maps.antt =====
-- A Python dict with integer keys as a function; `none` is a missing key.
use Prim.Native.Nat.{ℕ}
use mathlib.Core.Path.{◌≡◌}
use mathlib.Core.Logic.{◌≢◌}
use native.Mathlib.Omega.{arith}
use buddy2api.Prelude.Tests.{◌==◌, if◌then◌else◌}

module _ {ℓ} {A : Type ℓ} where
  -- `m[k] = v`
  abbrev pub update : (ℕ → A) → ℕ → A → ℕ → A
  update m k v j = if j == k then v else m j

  pub update_self : (m : ℕ → A) (k : ℕ) (v : A) → update m k v k ≡ v
  update_self m k v = ground arith

  pub update_ne : (m : ℕ → A) (k : ℕ) (v : A) (j : ℕ) → j ≢ k → update m k v j ≡ m j
  update_ne m k v j h = ground arith
