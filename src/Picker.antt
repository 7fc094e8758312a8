-- ===== src/Picker.antt =====
-- auth_manager.py: which account of a channel a provider spends, and the pin that a hop of the queue sets.
pub mod Best
pub mod Candidates
pub mod Pinned
mod Tests
use buddy2api.Prelude.{
  ℕ, zero, suc, max, Bool, true, false, not, ◌&&◌, ◌||◌, Option, none, some, List, [], ◌∷◌, String,
  str_eq, if◌then◌else◌, ◌==◌,
}
use buddy2api.Prelude.Int.{ℤ, leb_ℤ}
use buddy2api.Prelude.Sort.{sort_on}
use buddy2api.Prelude.Member.{keep}
use buddy2api.Routing.{
  Account, Cache, account_available, get_active_accounts, priority_of, weight_of, sort_key,
  key_order,
}

-- What a pick reads: the table, the readings, the exempt channels, the ids left out and those that cool down.
pub record Pool : Type 0 where
  pub accounts : List Account
  pub cache : Cache
  pub exempt : List String
  pub excluded : ℕ → Bool
  pub cooling : ℕ → Bool

-- `_sticky_account_id`, and the ids that `routing.note_pick` was given, the latest first.
pub record Memory : Type 0 where
  pub sticky : String → Option ℕ
  pub noted : List ℕ

abbrev pub set_sticky : String → ℕ → Memory → Memory
set_sticky provider id m = record m {
  sticky = λ p. if str_eq p provider then some id else m.sticky p;
}

abbrev pub note_pick : ℕ → Memory → Memory
note_pick id m = record m { noted = id ∷ m.noted }

-- `_pinned_account`
unfoldable pub pinned_for : Option Account → String → Option Account
pinned_for none provider = none
pinned_for (some account) provider = if str_eq account.provider provider then some account else none

-- `next((a for a in accounts if a["id"] == id), None)`, and `db.get_account`
abbrev pub find_id : ℕ → List Account → Option Account
find_id id [] = none
find_id id (a ∷ accounts) = if a.id == id then some a else find_id id accounts

abbrev pub or_pinned : Account → Option Account → Account
or_pinned pinned none = pinned
or_pinned pinned (some a) = a

unfoldable pub pick_pinned : Pool → Account → Memory → Option Account × Memory
pick_pinned pool pinned m =
    if pinned.id == 0 || (pool.excluded pinned.id || pool.cooling pinned.id)
    then (none, m)
    else (some (or_pinned pinned (find_id pinned.id pool.accounts)), note_pick pinned.id m)

abbrev pub is_candidate : Pool → Account → Bool
is_candidate pool a =
    not (pool.excluded a.id)
    && (not (pool.cooling a.id) && account_available pool.cache pool.exempt a)

unfoldable pub candidates : Pool → String → List Account
unfolding account_available get_active_accounts
candidates pool provider = keep (is_candidate pool) (get_active_accounts provider pool.accounts)

abbrev pub max_ℤ : ℤ → ℤ → ℤ
max_ℤ a b = if leb_ℤ a b then b else a

-- `max(_route_priority(a) for a in …)` with the first one apart
unfoldable pub highest_priority : Account → List Account → ℤ
highest_priority a [] = priority_of a
highest_priority a (b ∷ rest) = max_ℤ (priority_of a) (highest_priority b rest)

abbrev pub eq_ℤ : ℤ → ℤ → Bool
eq_ℤ a b = leb_ℤ a b && leb_ℤ b a

unfoldable pub top_candidates : Account → List Account → List Account
unfolding highest_priority
top_candidates a rest = keep (λ b. eq_ℤ (priority_of b) (highest_priority a rest)) (a ∷ rest)

unfoldable pub highest_weight : List Account → ℕ
highest_weight [] = 0
highest_weight (a ∷ rest) = max (weight_of a) (highest_weight rest)

-- The first of the sorted candidates becomes the sticky account.
abbrev pub take_first : String → List Account → Memory → Option Account × Memory
take_first provider [] m = (none, m)
take_first provider (a ∷ rest) m = (some a, note_pick a.id (set_sticky provider a.id m))

abbrev pub keep_sticky : String → List Account → Option Account → Memory → Option Account × Memory
keep_sticky provider top none m = take_first provider (sort_on key_order sort_key top) m
keep_sticky provider top (some sticky) m =
    if weight_of sticky == highest_weight top
    then (some sticky, note_pick sticky.id m)
    else take_first provider (sort_on key_order sort_key top) m

abbrev pub find_sticky : Option ℕ → List Account → Option Account
find_sticky none top = none
find_sticky (some id) top = find_id id top

abbrev pub pick_among : String → List Account → Memory → Option Account × Memory
pick_among provider [] m = (none, m)
pick_among provider (a ∷ rest) m =
    let top = top_candidates a rest in
    keep_sticky provider top (find_sticky (m.sticky provider) top) m

abbrev pub pick_free : Pool → String → Option Account → Memory → Option Account × Memory
pick_free pool provider none m = pick_among provider (candidates pool provider) m
pick_free pool provider (some pinned) m = pick_pinned pool pinned m

unfoldable pub pick_account : Pool → Option Account → String → Memory → Option Account × Memory
unfolding pinned_for pick_pinned candidates top_candidates highest_weight sort_on
pick_account pool pin provider m = pick_free pool provider (pinned_for pin provider) m
