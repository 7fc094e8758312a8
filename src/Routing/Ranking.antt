-- ===== src/Routing/Ranking.antt =====
-- routing.py, `order_accounts`: what the order promises about two accounts of the pool.
use buddy2api.Prelude.{
  zero, suc, ◌-◌, ◌*◌, ◌≤◌, sym, ◌∙◌, Option, none, some, leb→le, le→leb, ◌≡◌, refl, true, List, [],
  ◌∷◌, String, All, arith,
}
use buddy2api.Prelude.Int.{ℤ, pos, negsuc, leb_ℤ, ◌≤ℤ◌}
use buddy2api.Prelude.Order.{
  Order, ratio_leq, nat_order, int_order, ratio_order, descending, lex, lex-first, lex-second,
}
use buddy2api.Prelude.Sort.{IsSortedOn, sort_on-IsSortedOn}
use buddy2api.Prelude.Member.{keep}
use buddy2api.Routing.{
  Account, Cache, priority_of, weight_of, weight_cell, requests_of, load, sort_key, key_order,
  order_accounts, account_available,
}

-- One account may stand before another: it has the greater priority; at equal priority the greater weight; at equal
-- weight the fewer requests per weight.
abbrev pub Precedes : Account → Account → Type 0
Precedes a b =
    (priority_of b ≤ℤ priority_of a)
    × (priority_of a ≤ℤ priority_of b
        → (weight_of b ≤ weight_of a)
          × (weight_of a ≤ weight_of b → requests_of a * weight_of b ≤ requests_of b * weight_of a))

module _ {A : Type 0} (R : A → A → Type 0) where
  -- A list in which each element stands in a relation to all later ones.
  abbrev pub Pairs : List A → Type 0
  Pairs [] = Unit
  Pairs (x ∷ xs) = All (R x) xs × Pairs xs

module _ {A K : Type 0} (o : Order K) (key : A → K) (R : A → A → Type 0) where
  All-follow :
      (x : A) (xs : List A)
      → ((y : A) → o.leq (key x) (key y) ≡ true → R x y)
      → All (λ y. o.leq (key x) (key y) ≡ true) xs
      → All (R x) xs
  All-follow x [] f h = tt
  All-follow x (y ∷ ys) f h = (f y h.0, All-follow x ys f h.1)

  pub Pairs-IsSortedOn :
      (xs : List A)
      → ((x y : A) → o.leq (key x) (key y) ≡ true → R x y)
      → IsSortedOn o key xs
      → Pairs R xs
  Pairs-IsSortedOn [] f h = tt
  Pairs-IsSortedOn (x ∷ xs) f h = (All-follow x xs (f x) h.0, Pairs-IsSortedOn xs f h.1)

pub le_of : (a b : ℤ) → leb_ℤ a b ≡ true → a ≤ℤ b
le_of a b h = ground arith

pub le_to : (a b : ℤ) → a ≤ℤ b → leb_ℤ a b ≡ true
le_to a b h = ground arith

weight_positive : (o : Option ℤ) → suc (weight_cell o - 1) ≡ weight_cell o
weight_positive none = refl
weight_positive (some (pos zero)) = refl
weight_positive (some (pos (suc n))) = ground arith
weight_positive (some (negsuc n)) = refl

pub cross :
    (a b : Account)
    → ratio_leq (load a) (load b) ≡ true
    → requests_of a * weight_of b ≤ requests_of b * weight_of a
cross a b h = leb→le _ _ (sym (rw (weight_positive a.weight, weight_positive b.weight) refl) ∙ h)

pub key-Precedes : (a b : Account) → key_order.leq (sort_key a) (sort_key b) ≡ true → Precedes a b
unfolding sort_key
key-Precedes a b h =
    let by_id = lex nat_order nat_order in
    let by_load = lex ratio_order by_id in
    let by_weight = lex (descending nat_order) by_load in
    let k = sort_key a in
    let l = sort_key b in
    (
      le_of (priority_of b) (priority_of a)
          (lex-first (descending int_order) by_weight k.0 l.0 k.1 l.1 h),
      λ p.
          let rest =
            lex-second (descending int_order) by_weight k.0 l.0 k.1 l.1 h
              (le_to (priority_of a) (priority_of b) p) in
          (
            leb→le (weight_of b) (weight_of a)
                (lex-first (descending nat_order) by_load k.1.0 l.1.0 k.1.1 l.1.1 rest),
            λ w. cross a b (
                lex-first ratio_order by_id k.1.1.0 l.1.1.0 k.1.1.1 l.1.1.1 (
                  lex-second (descending nat_order) by_load k.1.0 l.1.0 k.1.1 l.1.1 rest
                    (le→leb (weight_of a) (weight_of b) w))),
          ),
    )

-- Whatever the readings, of two accounts of the pool the one that comes first has the greater or equal priority, then the greater or equal weight,
-- then the fewer or equal requests per weight.
pub order_accounts-Pairs :
    (cache : Cache) (exempt : List String) (accounts : List Account)
    → Pairs Precedes (order_accounts cache exempt accounts)
unfolding order_accounts
order_accounts-Pairs cache exempt accounts =
    Pairs-IsSortedOn key_order sort_key Precedes _ key-Precedes
      (sort_on-IsSortedOn key_order sort_key (keep (account_available cache exempt) accounts))
