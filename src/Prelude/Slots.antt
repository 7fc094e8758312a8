-- ===== src/Prelude/Slots.antt =====
-- Python's `items[i]` on lists, and dicts with text keys as functions; `none` is a missing entry.
use Prim.Native.Nat.{ℕ, zero, suc, ◌<◌}
use Prim.Native.String.{String}
use mathlib.Core.Path.{◌≡◌, refl, ap}
use mathlib.Core.Logic.{◌≢◌}
use mathlib.Core.Option.{Option, none, some}
use mathlib.Core.List.{List, [], ◌∷◌, ◌++◌, map}
use native.Mathlib.Omega.{arith}
use text.Mathlib.Text.{◌==◌ as str_eq}
use buddy2api.Prelude.Tests.{if◌then◌else◌}
use buddy2api.Prelude.Lists.{length}

module _ {ℓ} {A : Type ℓ} where
  abbrev pub get_elem? : List A → ℕ → Option A
  get_elem? [] i = none
  get_elem? (x ∷ xs) zero = some x
  get_elem? (x ∷ xs) (suc i) = get_elem? xs i

  -- `items[i] = y` for an index in range
  abbrev pub put_at : ℕ → A → List A → List A
  put_at i y [] = []
  put_at zero y (x ∷ xs) = y ∷ xs
  put_at (suc i) y (x ∷ xs) = x ∷ put_at i y xs

  pub get_elem?-put_self :
      (i : ℕ) (y x : A) (xs : List A)
      → get_elem? xs i ≡ some x
      → get_elem? (put_at i y xs) i ≡ some y
  get_elem?-put_self i y x [] h = absurd (cc h)
  get_elem?-put_self zero y x (z ∷ xs) h = refl
  get_elem?-put_self (suc i) y x (z ∷ xs) h = get_elem?-put_self i y x xs h

  pub get_elem?-put_other :
      (i j : ℕ) (y : A) (xs : List A) → j ≢ i → get_elem? (put_at i y xs) j ≡ get_elem? xs j
  get_elem?-put_other i j y [] h = refl
  get_elem?-put_other zero zero y (z ∷ xs) h = absurd (h refl)
  get_elem?-put_other zero (suc j) y (z ∷ xs) h = refl
  get_elem?-put_other (suc i) zero y (z ∷ xs) h = refl
  get_elem?-put_other (suc i) (suc j) y (z ∷ xs) h =
      get_elem?-put_other i j y xs (λ e. h (ap (λ n. suc n) e))

  pub get_elem?-append :
      (i : ℕ) (x : A) (xs ys : List A) → get_elem? xs i ≡ some x → get_elem? (xs ++ ys) i ≡ some x
  get_elem?-append i x [] ys h = absurd (cc h)
  get_elem?-append zero x (z ∷ xs) ys h = h
  get_elem?-append (suc i) x (z ∷ xs) ys h = get_elem?-append i x xs ys h

  pub get_elem?-last : (x : A) (xs : List A) → get_elem? (xs ++ x ∷ []) (length xs) ≡ some x
  get_elem?-last x [] = refl
  get_elem?-last x (z ∷ xs) = get_elem?-last x xs

  pub get_elem?-lt : (i : ℕ) (x : A) (xs : List A) → get_elem? xs i ≡ some x → i < length xs
  get_elem?-lt i x [] h = absurd (cc h)
  get_elem?-lt zero x (z ∷ xs) h = omega arith
  get_elem?-lt (suc i) x (z ∷ xs) h = omega (arith, get_elem?-lt i x xs h)

  pub length-put_at : (i : ℕ) (y : A) (xs : List A) → length (put_at i y xs) ≡ length xs
  length-put_at i y [] = refl
  length-put_at zero y (z ∷ xs) = refl
  length-put_at (suc i) y (z ∷ xs) = ap (λ n. suc n) (length-put_at i y xs)

  pub put_at-get_elem? :
      (i : ℕ) (x : A) (xs : List A) → get_elem? xs i ≡ some x → put_at i x xs ≡ xs
  put_at-get_elem? i x [] h = refl
  put_at-get_elem? zero x (z ∷ xs) h = ap (λ y. y ∷ xs) (cc h)
  put_at-get_elem? (suc i) x (z ∷ xs) h = ap (λ l. z ∷ l) (put_at-get_elem? i x xs h)

module _ {ℓ κ} {A : Type ℓ} {B : Type κ} (f : A → B) where
  pub get_elem?-map :
      (i : ℕ) (x : A) (xs : List A) → get_elem? xs i ≡ some x → get_elem? (map f xs) i ≡ some (f x)
  get_elem?-map i x [] h = absurd (cc h)
  get_elem?-map zero x (z ∷ xs) h = cc h
  get_elem?-map (suc i) x (z ∷ xs) h = get_elem?-map i x xs h

  pub put_at-map : (i : ℕ) (y : A) (xs : List A) → put_at i (f y) (map f xs) ≡ map f (put_at i y xs)
  put_at-map i y [] = refl
  put_at-map zero y (z ∷ xs) = refl
  put_at-map (suc i) y (z ∷ xs) = ap (λ l. f z ∷ l) (put_at-map i y xs)

  pub length-map : (xs : List A) → length (map f xs) ≡ length xs
  length-map [] = refl
  length-map (z ∷ xs) = ap (λ n. suc n) (length-map xs)

  pub map-append : (xs ys : List A) → map f (xs ++ ys) ≡ map f xs ++ map f ys
  map-append [] ys = refl
  map-append (z ∷ xs) ys = ap (λ l. f z ∷ l) (map-append xs ys)

module _ {ℓ} {A : Type ℓ} where
  -- `m[k] = v`, and `m.pop(k, None)` with `none` for v
  abbrev pub set_key : (String → Option A) → String → Option A → String → Option A
  set_key m k v j = if str_eq j k then v else m j
