-- ===== src/Routing/Numbering.antt =====
-- routing.py, `static_order_index`: the numbers of the management page's table.
use buddy2api.Prelude.{
  ℕ, zero, suc, ◌≡◌, refl, ap, Option, none, some, List, [], ◌∷◌, map, length, String, str_eq,
  if◌then◌else◌, ◌∙◌,
}
use buddy2api.Prelude.Int.{ℤ}
use buddy2api.Prelude.Order.{Order, nat_order, int_order, descending, lex}
use buddy2api.Prelude.Sort.{sort_on, sort_on-perm, sort_on-map, length-sort_on}
use buddy2api.Prelude.Texts.{str_in}
use buddy2api.Routing.{Account, or_else, priority_of, weight_of}
use mathlib.Core.List.{Perm}
use mathlib.Core.List.Perm

-- The dict from a channel to its position: a later duplicate wins.
abbrev pub position_from : ℕ → List String → String → Option ℕ
position_from index [] channel = none
position_from index (c ∷ cs) channel =
    or_else (position_from (suc index) cs channel) (if str_eq c channel then some index else none)

-- The number of keys of that dict.
abbrev pub tail_position : List String → ℕ
tail_position [] = 0
tail_position (c ∷ cs) = if str_in c cs then tail_position cs else suc (tail_position cs)

abbrev pub position : List String → String → ℕ
position order channel = elim (position_from 0 order channel) [
  | none ↦ tail_position order
  | some index ↦ index
]

abbrev pub TableKey : Type 0
TableKey = ℤ × (ℕ × (ℕ × ℕ))

abbrev pub table_key : List String → Account → TableKey
table_key order account =
    (priority_of account, (position order account.provider, (weight_of account, account.id)))

abbrev pub table_order : Order TableKey
table_order = lex (descending int_order) (lex nat_order (lex (descending nat_order) nat_order))

-- `enumerate(rows, start=n)`, with the ids only
abbrev pub number_from : ℕ → List Account → List (ℕ × ℕ)
number_from n [] = []
number_from n (a ∷ rest) = (a.id, n) ∷ number_from (suc n) rest

unfoldable pub static_order_index : List String → List Account → List (ℕ × ℕ)
unfolding sort_on
static_order_index order accounts = number_from 1 (sort_on table_order (table_key order) accounts)

-- `range(n, n + k)`
abbrev pub range_from : ℕ → ℕ → List ℕ
range_from n zero = []
range_from n (suc k) = n ∷ range_from (suc n) k

numbers : (n : ℕ) (xs : List Account) → map (λ p. p.1) (number_from n xs) ≡ range_from n (length xs)
numbers n [] = refl
numbers n (x ∷ xs) = ap (λ l. n ∷ l) (numbers (suc n) xs)

ids : (n : ℕ) (xs : List Account) → map (λ p. p.0) (number_from n xs) ≡ map (λ a. a.id) xs
ids n [] = refl
ids n (x ∷ xs) = ap (λ l. x.id ∷ l) (ids (suc n) xs)

-- Every row of the table gets a number, and the numbers are 1, 2, … up to the number of rows, each used once.
pub static_order_index-perm :
    (order : List String) (accounts : List Account)
    → (map (λ p. p.1) (static_order_index order accounts) ≡ range_from 1 (length accounts))
      × Perm (map (λ p. p.0) (static_order_index order accounts)) (map (λ a. a.id) accounts)
unfolding static_order_index
static_order_index-perm order accounts =
    let rows = sort_on table_order (table_key order) accounts in
    (
      numbers 1 rows ∙ ap (range_from 1) (length-sort_on table_order (table_key order) accounts),
      rw (ids 1 rows) (Perm.map (λ a. a.id) (sort_on-perm table_order (table_key order) accounts)),
    )

renumber :
    (f : Account → Account)
    → ((x : Account) → (f x).id ≡ x.id)
    → (n : ℕ) (xs : List Account) → number_from n (map f xs) ≡ number_from n xs
renumber f same n [] = refl
renumber f same n (x ∷ xs) = rw (same x) (ap (λ l. (x.id, n) ∷ l) (renumber f same (suc n) xs))

-- A change of the accounts that keeps id, provider, priority and weight, such as one of their status or of
-- their counters, never renumbers the table.
pub static_order_index-map :
    (order : List String) (f : Account → Account) (accounts : List Account)
    → ((x : Account) → (f x).id ≡ x.id)
    → ((x : Account) → table_key order (f x) ≡ table_key order x)
    → static_order_index order (map f accounts) ≡ static_order_index order accounts
unfolding static_order_index
static_order_index-map order f accounts same key =
    ap (number_from 1) (sort_on-map table_order (table_key order) f key accounts)
    ∙ renumber f same 1 (sort_on table_order (table_key order) accounts)
