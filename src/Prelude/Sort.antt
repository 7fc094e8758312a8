-- ===== src/Prelude/Sort.antt =====
-- Python's `sorted(xs, key=…)`: stable, by a total preorder of the keys.
use Prim.Native.Nat.{suc}
use mathlib.Core.Path.{◌≡◌, refl, ap, ◌∙◌}
use mathlib.Core.Logic.{inl, inr}
use mathlib.Core.Bool.{true}
use mathlib.Core.List.{List, [], ◌∷◌, Perm, map}
use mathlib.Core.List.Perm
use buddy2api.Prelude.Tests.{if◌then◌else◌}
use buddy2api.Prelude.Cases.{Bool-cases}
use buddy2api.Prelude.Lists.{All, length}
use buddy2api.Prelude.Order.{Order}

module _ {ℓ κ} {A : Type ℓ} {K : Type κ} (o : Order K) (key : A → K) where
  unfoldable pub insert : A → List A → List A
  insert x [] = x ∷ []
  insert x (y ∷ ys) = if o.leq (key x) (key y) then x ∷ y ∷ ys else y ∷ insert x ys

  unfoldable pub sort_on : List A → List A
  unfolding insert
  sort_on [] = []
  sort_on (x ∷ xs) = insert x (sort_on xs)

  insert-perm : (x : A) (ys : List A) → Perm (insert x ys) (x ∷ ys)
  unfolding insert
  insert-perm x [] = Perm.refl (x ∷ [])
  insert-perm x (y ∷ ys) = elim (Bool-cases (o.leq (key x) (key y))) [
    | inl e ↦ rw e (Perm.refl (x ∷ y ∷ ys))
    | inr e ↦ rw e (Perm.trans (Perm.cons y (insert-perm x ys)) (Perm.swap x y ys))
  ]

  pub sort_on-perm : (xs : List A) → Perm (sort_on xs) xs
  unfolding sort_on
  sort_on-perm [] = Perm.refl []
  sort_on-perm (x ∷ xs) = Perm.trans (insert-perm x (sort_on xs)) (Perm.cons x (sort_on-perm xs))

  length-insert : (x : A) (ys : List A) → length (insert x ys) ≡ suc (length ys)
  unfolding insert
  length-insert x [] = refl
  length-insert x (y ∷ ys) = elim (Bool-cases (o.leq (key x) (key y))) [
    | inl e ↦ rw e refl
    | inr e ↦ rw e (ap suc (length-insert x ys))
  ]

  pub length-sort_on : (xs : List A) → length (sort_on xs) ≡ length xs
  unfolding sort_on
  length-sort_on [] = refl
  length-sort_on (x ∷ xs) = length-insert x (sort_on xs) ∙ ap suc (length-sort_on xs)

  -- Each element comes no later in the order than those after it.
  abbrev pub IsSortedOn : List A → Type 0
  IsSortedOn [] = Unit
  IsSortedOn (x ∷ xs) = All (λ y. o.leq (key x) (key y) ≡ true) xs × IsSortedOn xs

module _ {ℓ κ} {A : Type ℓ} {K : Type κ} (o : Order K) (key : A → K) where
  -- Every element is no earlier in the order than the key.
  abbrev IsFrom : K → List A → Type 0
  IsFrom k = All (λ y. o.leq k (key y) ≡ true)

  IsFrom-trans : (j k : K) (ys : List A) → o.leq j k ≡ true → IsFrom k ys → IsFrom j ys
  IsFrom-trans j k [] e h = tt
  IsFrom-trans j k (y ∷ ys) e h = (o.trans j k (key y) e h.0, IsFrom-trans j k ys e h.1)

  IsFrom-insert :
      (k : K) (x : A) (ys : List A)
      → o.leq k (key x) ≡ true
      → IsFrom k ys
      → IsFrom k (insert o key x ys)
  unfolding insert
  IsFrom-insert k x [] e h = (e, tt)
  IsFrom-insert k x (y ∷ ys) e h = elim (Bool-cases (o.leq (key x) (key y))) [
    | inl first ↦ rw first (e, h)
    | inr later ↦ rw later (h.0, IsFrom-insert k x ys e h.1)
  ]

  insert-IsSortedOn :
      (x : A) (ys : List A) → IsSortedOn o key ys → IsSortedOn o key (insert o key x ys)
  unfolding insert
  insert-IsSortedOn x [] h = (tt, tt)
  insert-IsSortedOn x (y ∷ ys) h = elim (Bool-cases (o.leq (key x) (key y))) [
    | inl first ↦ rw first ((first, IsFrom-trans (key x) (key y) ys first h.0), h)
    | inr later ↦
        let back : o.leq (key y) (key x) ≡ true = elim (o.total (key x) (key y)) [
          | inl e ↦ cc (e, later)
          | inr e ↦ e
        ] in
        rw later (IsFrom-insert (key y) x ys back h.0, insert-IsSortedOn x ys h.1)
  ]

  pub sort_on-IsSortedOn : (xs : List A) → IsSortedOn o key (sort_on o key xs)
  unfolding sort_on
  sort_on-IsSortedOn [] = tt
  sort_on-IsSortedOn (x ∷ xs) = insert-IsSortedOn x (sort_on o key xs) (sort_on-IsSortedOn xs)

module _ {A K : Type 0} (o : Order K) (key : A → K) (f : A → A)
    (same : (x : A) → key (f x) ≡ key x) where
  insert-map : (x : A) (ys : List A) → insert o key (f x) (map f ys) ≡ map f (insert o key x ys)
  unfolding insert
  insert-map x [] = refl
  insert-map x (y ∷ ys) = elim (Bool-cases (o.leq (key x) (key y))) [
    | inl first ↦ rw (same x, same y, first) refl
    | inr later ↦ rw (same x, same y, later) (ap (λ l. f y ∷ l) (insert-map x ys))
  ]

  -- A change that the key does not see commutes with the sort.
  pub sort_on-map : (xs : List A) → sort_on o key (map f xs) ≡ map f (sort_on o key xs)
  unfolding sort_on
  sort_on-map [] = refl
  sort_on-map (x ∷ xs) = ap (insert o key (f x)) (sort_on-map xs) ∙ insert-map x (sort_on o key xs)
