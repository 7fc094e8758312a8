-- ===== src/Picker/Best.antt =====
-- auth_manager.py, `pick_account` without a pin: the choice among the candidates of a channel.
use buddy2api.Prelude.{
  ℕ, max, ◌≤◌, ◌≡◌, refl, sym, subst, Bool, true, false, inl, inr, ◌⊎◌, Option, none, some, List,
  [], ◌∷◌, String, ◌==◌, ==_iff, if◌then◌else◌, arith,
}
use buddy2api.Prelude.Int.{ℤ, ◌≤ℤ◌}
use buddy2api.Prelude.Sort.{sort_on, IsSortedOn, sort_on-IsSortedOn}
use buddy2api.Prelude.Member.{In, In-keep, In-keep_of, In-sort_on, In-sort_on_of, In-All}
use buddy2api.Routing.{Account, priority_of, weight_of, sort_key, key_order}
use buddy2api.Routing.Ranking.{key-Precedes}
use buddy2api.Picker.{
  Memory, find_id, max_ℤ, highest_priority, eq_ℤ, top_candidates, highest_weight, take_first,
  keep_sticky, find_sticky, pick_among,
}

le_max_left : (a b c : ℤ) → c ≤ℤ a → c ≤ℤ max_ℤ a b
le_max_left a b c h = ground arith

le_max_right : (a b c : ℤ) → c ≤ℤ b → c ≤ℤ max_ℤ a b
le_max_right a b c h = ground arith

le_self : (a : ℤ) → a ≤ℤ a
le_self a = omega arith

le_trans : (a b c : ℤ) → a ≤ℤ b → b ≤ℤ c → a ≤ℤ c
le_trans a b c h k = omega (arith, h, k)

highest_priority_bound :
    (a : Account) (rest : List Account) (b : Account)
    → In b (a ∷ rest)
    → priority_of b ≤ℤ highest_priority a rest
unfolding highest_priority
highest_priority_bound a [] b (inl e) =
    subst (λ x. priority_of x ≤ℤ priority_of a) e (le_self (priority_of a))
highest_priority_bound a [] b (inr i) = absurd i
highest_priority_bound a (c ∷ rest) b (inl e) =
    le_max_left (priority_of a) (highest_priority c rest) (priority_of b)
      (subst (λ x. priority_of x ≤ℤ priority_of a) e (le_self (priority_of a)))
highest_priority_bound a (c ∷ rest) b (inr i) =
    le_max_right (priority_of a) (highest_priority c rest) (priority_of b)
      (highest_priority_bound c rest b i)

highest_weight_bound : (xs : List Account) (b : Account) → In b xs → weight_of b ≤ highest_weight xs
unfolding highest_weight
highest_weight_bound [] b i = absurd i
highest_weight_bound (a ∷ xs) b (inl e) =
    subst (λ x. weight_of x ≤ max (weight_of a) (highest_weight xs)) e (omega arith)
highest_weight_bound (a ∷ xs) b (inr i) = omega (arith, highest_weight_bound xs b i)

In-find_id : (id : ℕ) (xs : List Account) (s : Account) → find_id id xs ≡ some s → In s xs
In-find_id id [] s h = cc h
In-find_id id (a ∷ xs) s h = at (a.id == id) (In-find_id id xs s) h
  where
    at :
        (b : Bool)
        → (find_id id xs ≡ some s → In s xs)
        → (if b then some a else find_id id xs) ≡ some s
        → In s (a ∷ xs)
    at true rec e = inl (cc e)
    at false rec e = inr (rec e)

-- Of a list, an account with the greatest weight; none only of an empty list.
abbrev Heaviest : List Account → Option Account → Type 0
Heaviest top none = (b : Account) → In b top → ⊥
Heaviest top (some x) = In x top × ((b : Account) → In b top → weight_of b ≤ weight_of x)

-- All of them have one priority.
module _ (provider : String) (top : List Account)
    (even : (x y : Account) → In x top → In y top → priority_of x ≤ℤ priority_of y) where
  first-Heaviest :
      (sorted : List Account) (m : Memory)
      → IsSortedOn key_order sort_key sorted
      → ((x : Account) → In x sorted → In x top)
      → ((x : Account) → In x top → In x sorted)
      → Heaviest top (take_first provider sorted m).0
  first-Heaviest [] m s to of = λ b i. of b i
  first-Heaviest (a ∷ rest) m s to of = (to a (inl refl), λ b i. lighter b i (of b i))
    where
      lighter : (b : Account) → In b top → In b (a ∷ rest) → weight_of b ≤ weight_of a
      lighter b i (inl e) = subst (λ x. weight_of x ≤ weight_of a) e (omega arith)
      lighter b i (inr j) =
          let before =
            key-Precedes a b
              (In-All (λ y. key_order.leq (sort_key a) (sort_key y) ≡ true) b rest s.0 j) in
          (before.1 (even a b (to a (inl refl)) i)).0

  sorted-Heaviest :
      (m : Memory) → Heaviest top (take_first provider (sort_on key_order sort_key top) m).0
  sorted-Heaviest m =
      first-Heaviest (sort_on key_order sort_key top) m (sort_on-IsSortedOn key_order sort_key top)
        (λ x. In-sort_on key_order sort_key x top) (λ x. In-sort_on_of key_order sort_key x top)

  keep_sticky-Heaviest :
      (o : Option Account) (m : Memory)
      → ((s : Account) → o ≡ some s → In s top)
      → Heaviest top (keep_sticky provider top o m).0
  keep_sticky-Heaviest none m f = sorted-Heaviest m
  keep_sticky-Heaviest (some s) m f = at (weight_of s == highest_weight top) refl
    where
      at :
          (b : Bool)
          → (weight_of s == highest_weight top) ≡ b
          → let r : Option Account × Memory =
              if b
              then (some s, record m { noted = s.id ∷ m.noted })
              else take_first provider (sort_on key_order sort_key top) m in
            Heaviest top r.0
      at true e = (
        f s refl,
        λ b i.
            subst (λ n. weight_of b ≤ n) (sym ((==_iff (weight_of s) (highest_weight top)).0 e))
              (highest_weight_bound top b i),
      )
      at false e = sorted-Heaviest m

-- The choice of a list of candidates: the greatest priority, then the greatest weight.
abbrev pub Chosen : List Account → Option Account → Type 0
Chosen all none = (b : Account) → In b all → ⊥
Chosen all (some x) =
    In x all
    × ((b : Account)
        → In b all
        → (priority_of b ≤ℤ priority_of x)
          × (priority_of x ≤ℤ priority_of b → weight_of b ≤ weight_of x))

max_cases : (a b : ℤ) → (max_ℤ a b ≤ℤ a) ⊎ (max_ℤ a b ≤ℤ b)
max_cases a b = ground arith

attained :
    (a : Account) (rest : List Account)
    → (b : Account) × In b (a ∷ rest) × (highest_priority a rest ≤ℤ priority_of b)
unfolding highest_priority
attained a [] = (a, inl refl, le_self (priority_of a))
attained a (c ∷ rest) =
    let (b, i, h) = attained c rest in
    elim (max_cases (priority_of a) (highest_priority c rest)) [
      | inl l ↦ (a, inl refl, l)
      | inr r ↦ (
        b,
        inr i,
        le_trans (max_ℤ (priority_of a) (highest_priority c rest)) (highest_priority c rest)
            (priority_of b) r h,
      )
    ]

eq_of : (a b : ℤ) → a ≤ℤ b → b ≤ℤ a → eq_ℤ a b ≡ true
eq_of a b h k = ground arith

le_of_eq : (a b : ℤ) → eq_ℤ a b ≡ true → (a ≤ℤ b) × (b ≤ℤ a)
le_of_eq a b h = ground arith

module _ (a : Account) (rest : List Account) where
  in_top :
      (b : Account)
      → In b (a ∷ rest)
      → highest_priority a rest ≤ℤ priority_of b
      → In b (top_candidates a rest)
  unfolding top_candidates
  in_top b i h =
      In-keep_of (λ c. eq_ℤ (priority_of c) (highest_priority a rest)) b (a ∷ rest) i
        (eq_of (priority_of b) (highest_priority a rest) (highest_priority_bound a rest b i) h)

  of_top :
      (b : Account)
      → In b (top_candidates a rest)
      → In b (a ∷ rest) × (highest_priority a rest ≤ℤ priority_of b)
  unfolding top_candidates
  of_top b i =
      let (j, e) = In-keep (λ c. eq_ℤ (priority_of c) (highest_priority a rest)) b (a ∷ rest) i in
      (j, (le_of_eq (priority_of b) (highest_priority a rest) e).1)

  even :
      (x y : Account)
      → In x (top_candidates a rest)
      → In y (top_candidates a rest)
      → priority_of x ≤ℤ priority_of y
  even x y i j =
      le_trans (priority_of x) (highest_priority a rest) (priority_of y)
        (highest_priority_bound a rest x (of_top x i).0) (of_top y j).1

  chosen : (o : Option Account) → Heaviest (top_candidates a rest) o → Chosen (a ∷ rest) o
  chosen none h = λ b i. let (c, j, k) = attained a rest in h c (in_top c j k)
  chosen (some x) (i, heavy) =
      let (j, high) = of_top x i in
      (
        j,
        λ b k.
            let below =
              le_trans (priority_of b) (highest_priority a rest) (priority_of x)
                (highest_priority_bound a rest b k) high in
            (
              below,
              λ p. heavy b (
                  in_top b k
                    (le_trans (highest_priority a rest) (priority_of x) (priority_of b) high p)),
            ),
      )

found_sticky :
    (o : Option ℕ) (top : List Account) (s : Account) → find_sticky o top ≡ some s → In s top
found_sticky none top s h = cc h
found_sticky (some id) top s h = In-find_id id top s h

pub pick_among-Chosen :
    (provider : String) (all : List Account) (m : Memory) → Chosen all (pick_among provider all m).0
pick_among-Chosen provider [] m = λ b i. i
pick_among-Chosen provider (a ∷ rest) m =
    let top = top_candidates a rest in
    chosen a rest _ (
      keep_sticky-Heaviest provider top (even a rest) (find_sticky (m.sticky provider) top) m
        (found_sticky (m.sticky provider) top))
