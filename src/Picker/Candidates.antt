-- ===== src/Picker/Candidates.antt =====
-- auth_manager.py, `pick_account` without a pin: who is a candidate, and the pick of a channel.
use buddy2api.Prelude.{
  ◌≤◌, ◌≡◌, Bool, true, false, not, ◌&&◌, Option, none, some, String, str_eq, arith, ◌↔◌,
}
use buddy2api.Prelude.Int.{◌≤ℤ◌}
use buddy2api.Prelude.Member.{In, keep, In-keep, In-keep_of}
use buddy2api.Routing.{Account, account_available, get_active_accounts, priority_of, weight_of}
use buddy2api.Picker.{Pool, Memory, pinned_for, is_candidate, candidates, pick_account}
use buddy2api.Picker.Best.{Chosen, pick_among-Chosen}

-- An account that a request may be given.
abbrev pub IsCandidate : Pool → String → Account → Type 0
IsCandidate pool provider x =
    In x pool.accounts
    × (x.active ≡ true)
    × (str_eq x.provider provider ≡ true)
    × (pool.excluded x.id ≡ false)
    × (pool.cooling x.id ≡ false)
    × (account_available pool.cache pool.exempt x ≡ true)

two : (a b : Bool) → a && b ≡ true → (a ≡ true) × (b ≡ true)
two a b h = ground arith

two_of : (a b : Bool) → a ≡ true → b ≡ true → a && b ≡ true
two_of a b h k = ground arith

three : (a b c : Bool) → not a && (not b && c) ≡ true → (a ≡ false) × (b ≡ false) × (c ≡ true)
three a b c h = ground arith

three_of : (a b c : Bool) → a ≡ false → b ≡ false → c ≡ true → not a && (not b && c) ≡ true
three_of a b c h k l = ground arith

In-candidates :
    (pool : Pool) (provider : String) (x : Account)
    → In x (candidates pool provider) ↔ IsCandidate pool provider x
unfolding candidates get_active_accounts
In-candidates pool provider x =
    let here : Account → Bool = λ a. a.active && str_eq a.provider provider in
    let free = account_available pool.cache pool.exempt x in
    (
      λ i.
          let (j, ok) = In-keep (is_candidate pool) x (keep here pool.accounts) i in
          let (k, place) = In-keep here x pool.accounts j in
          let (on, at) = two x.active (str_eq x.provider provider) place in
          let (kept, warm, open_quota) = three (pool.excluded x.id) (pool.cooling x.id) free ok in
          (k, on, at, kept, warm, open_quota),
      λ (k, on, at, kept, warm, open_quota).
          In-keep_of (is_candidate pool) x (keep here pool.accounts)
            (In-keep_of here x pool.accounts k (two_of x.active (str_eq x.provider provider) on at))
            (three_of (pool.excluded x.id) (pool.cooling x.id) free kept warm open_quota),
    )

-- The pick of a channel: none only where it has no candidate.
abbrev pub IsBestPick : Pool → String → Option Account → Type 0
IsBestPick pool provider none = (b : Account) → IsCandidate pool provider b → ⊥
IsBestPick pool provider (some x) =
    IsCandidate pool provider x
    × ((b : Account)
        → IsCandidate pool provider b
        → (priority_of b ≤ℤ priority_of x)
          × (priority_of x ≤ℤ priority_of b → weight_of b ≤ weight_of x))

best :
    (pool : Pool) (provider : String) (o : Option Account)
    → Chosen (candidates pool provider) o
    → IsBestPick pool provider o
best pool provider none h = λ b c. h b ((In-candidates pool provider b).1 c)
best pool provider (some x) (i, h) =
    ((In-candidates pool provider x).0 i, λ b c. h b ((In-candidates pool provider b).1 c))

-- Without a pin, and whatever account is sticky, a candidate is picked where the channel has one: active, on the channel, neither left out nor cooling
-- down, available; no candidate has a greater priority, and none of its priority has a greater weight.
pub pick_account-IsBestPick :
    (pool : Pool) (pin : Option Account) (provider : String) (m : Memory)
    → pinned_for pin provider ≡ none
    → IsBestPick pool provider (pick_account pool pin provider m).0
unfolding pick_account
pick_account-IsBestPick pool pin provider m h =
    rw h (best pool provider _ (pick_among-Chosen provider (candidates pool provider) m))
