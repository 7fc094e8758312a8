-- ===== src/Prelude/Member.antt =====
-- Membership by recursion, and comprehensions with a Boolean test.
use mathlib.Core.Path.{◌≡◌, refl, sym, ◌∙◌, ap, subst}
use mathlib.Core.Logic.{◌⊎◌, inl, inr}
use mathlib.Core.Bool.{Bool, true, false}
use mathlib.Core.List.{List, [], ◌∷◌, ◌++◌, flat_map, map}
use buddy2api.Prelude.Tests.{if◌then◌else◌}
use buddy2api.Prelude.Cases.{Bool-cases}
use buddy2api.Prelude.Lists.{All}
use buddy2api.Prelude.Order.{Order}
use buddy2api.Prelude.Sort.{insert, sort_on}

module _ {A : Type 0} where
  -- Where an element stands in a list.
  abbrev pub In : A → List A → Type 0
  In x [] = ⊥
  In x (y ∷ ys) = (y ≡ x) ⊎ In x ys

  -- `[x for x in xs if p(x)]`
  abbrev pub keep : (A → Bool) → List A → List A
  keep p [] = []
  keep p (x ∷ xs) = if p x then x ∷ keep p xs else keep p xs

  pub In-append_left : (x : A) (xs ys : List A) → In x xs → In x (xs ++ ys)
  In-append_left x [] ys i = absurd i
  In-append_left x (z ∷ xs) ys (inl e) = inl e
  In-append_left x (z ∷ xs) ys (inr i) = inr (In-append_left x xs ys i)

  pub In-append_right : (x : A) (xs ys : List A) → In x ys → In x (xs ++ ys)
  In-append_right x [] ys i = i
  In-append_right x (z ∷ xs) ys i = inr (In-append_right x xs ys i)

  pub In-append : (x : A) (xs ys : List A) → In x (xs ++ ys) → In x xs ⊎ In x ys
  In-append x [] ys i = inr i
  In-append x (z ∷ xs) ys (inl e) = inl (inl e)
  In-append x (z ∷ xs) ys (inr i) = elim (In-append x xs ys i) [
    | inl j ↦ inl (inr j)
    | inr j ↦ inr j
  ]

  In-keep_head :
      (p : A → Bool) (x y : A) (ys : List A) (b : Bool)
      → p y ≡ b
      → (In x (keep p ys) → In x ys × (p x ≡ true))
      → In x (if b then y ∷ keep p ys else keep p ys)
      → In x (y ∷ ys) × (p x ≡ true)
  In-keep_head p x y ys true h rest (inl e) = (inl e, ap p (sym e) ∙ h)
  In-keep_head p x y ys true h rest (inr j) = (inr (rest j).0, (rest j).1)
  In-keep_head p x y ys false h rest j = (inr (rest j).0, (rest j).1)

  pub In-keep : (p : A → Bool) (x : A) (xs : List A) → In x (keep p xs) → In x xs × (p x ≡ true)
  In-keep p x [] i = absurd i
  In-keep p x (y ∷ ys) i = In-keep_head p x y ys (p y) refl (In-keep p x ys) i

  pub In-keep_of : (p : A → Bool) (x : A) (xs : List A) → In x xs → p x ≡ true → In x (keep p xs)
  In-keep_of p x [] i h = absurd i
  In-keep_of p x (y ∷ ys) (inl e) h = rw (ap p e ∙ h) (inl e)
  In-keep_of p x (y ∷ ys) (inr i) h = elim (Bool-cases (p y)) [
    | inl t ↦ rw t (inr (In-keep_of p x ys i h))
    | inr f ↦ rw f (In-keep_of p x ys i h)
  ]

  pub keep_none : (p : A → Bool) (xs : List A) → ((x : A) → In x xs → p x ≡ false) → keep p xs ≡ []
  keep_none p [] h = refl
  keep_none p (x ∷ xs) h = rw (h x (inl refl)) (keep_none p xs (λ y i. h y (inr i)))

  pub All-of_In : (P : A → Type 0) (xs : List A) → ((x : A) → In x xs → P x) → All P xs
  All-of_In P [] h = tt
  All-of_In P (y ∷ ys) h = (h y (inl refl), All-of_In P ys (λ x i. h x (inr i)))

  pub In-All : (P : A → Type 0) (x : A) (xs : List A) → All P xs → In x xs → P x
  In-All P x [] h i = absurd i
  In-All P x (y ∷ ys) h (inl e) = subst P e h.0
  In-All P x (y ∷ ys) h (inr i) = In-All P x ys h.1 i

module _ {A B : Type 0} where
  pub In-map : (g : A → B) (y : B) (xs : List A) → In y (map g xs) → (x : A) × In x xs × (g x ≡ y)
  In-map g y [] i = absurd i
  In-map g y (x ∷ xs) (inl e) = (x, inl refl, e)
  In-map g y (x ∷ xs) (inr i) = let (z, j, e) = In-map g y xs i in (z, inr j, e)

  pub In-map_of : (g : A → B) (x : A) (xs : List A) → In x xs → In (g x) (map g xs)
  In-map_of g x [] i = absurd i
  In-map_of g x (z ∷ xs) (inl e) = inl (ap g e)
  In-map_of g x (z ∷ xs) (inr i) = inr (In-map_of g x xs i)

module _ {A B : Type 0} (f : A → List B) where
  -- A nested comprehension.
  pub In-flat_map : (y : B) (xs : List A) → In y (flat_map f xs) → (x : A) × In x xs × In y (f x)
  unfolding flat_map
  In-flat_map y [] i = absurd i
  In-flat_map y (x ∷ xs) i = elim (In-append y (f x) (flat_map f xs) i) [
    | inl j ↦ (x, inl refl, j)
    | inr j ↦ let (z, k, l) = In-flat_map y xs j in (z, inr k, l)
  ]

  pub In-flat_map_of : (y : B) (x : A) (xs : List A) → In x xs → In y (f x) → In y (flat_map f xs)
  unfolding flat_map
  In-flat_map_of y x [] i j = absurd i
  In-flat_map_of y x (z ∷ xs) (inl e) j =
      In-append_left y (f z) (flat_map f xs) (subst (λ t. In y (f t)) (sym e) j)
  In-flat_map_of y x (z ∷ xs) (inr i) j =
      In-append_right y (f z) (flat_map f xs) (In-flat_map_of y x xs i j)

module _ {A K : Type 0} (o : Order K) (key : A → K) where
  place :
      (x y z : A) (zs : List A) (b : Bool)
      → (In x (insert o key y zs) → (y ≡ x) ⊎ In x zs)
      → In x (if b then y ∷ z ∷ zs else z ∷ insert o key y zs)
      → (y ≡ x) ⊎ In x (z ∷ zs)
  place x y z zs true rest i = i
  place x y z zs false rest (inl e) = inr (inl e)
  place x y z zs false rest (inr j) = elim (rest j) [ inl e ↦ inl e | inr k ↦ inr (inr k) ]

  In-insert : (x y : A) (ys : List A) → In x (insert o key y ys) → (y ≡ x) ⊎ In x ys
  unfolding insert
  In-insert x y [] i = i
  In-insert x y (z ∷ zs) i = place x y z zs (o.leq (key y) (key z)) (In-insert x y zs) i

  In-insert_of : (x y : A) (ys : List A) → (y ≡ x) ⊎ In x ys → In x (insert o key y ys)
  unfolding insert
  In-insert_of x y [] i = i
  In-insert_of x y (z ∷ zs) i = elim (Bool-cases (o.leq (key y) (key z))) [
    | inl t ↦ rw t i
    | inr f ↦ rw f (elim i [
      | inl e ↦ inr (In-insert_of x y zs (inl e))
      | inr j ↦ elim j [ inl e ↦ inl e | inr k ↦ inr (In-insert_of x y zs (inr k)) ]
    ])
  ]

  pub In-sort_on : (x : A) (xs : List A) → In x (sort_on o key xs) → In x xs
  unfolding sort_on
  In-sort_on x [] i = i
  In-sort_on x (y ∷ ys) i = elim (In-insert x y (sort_on o key ys) i) [
    | inl e ↦ inl e
    | inr j ↦ inr (In-sort_on x ys j)
  ]

  pub In-sort_on_of : (x : A) (xs : List A) → In x xs → In x (sort_on o key xs)
  unfolding sort_on
  In-sort_on_of x [] i = i
  In-sort_on_of x (y ∷ ys) (inl e) = In-insert_of x y (sort_on o key ys) (inl e)
  In-sort_on_of x (y ∷ ys) (inr j) =
      In-insert_of x y (sort_on o key ys) (inr (In-sort_on_of x ys j))
