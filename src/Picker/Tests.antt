-- ===== src/Picker/Tests.antt =====
-- Picks at a concrete table.
use buddy2api.Prelude.{ℕ, ◌≡◌, refl, true, false, none, some, [], ◌∷◌, ◌==◌}
use buddy2api.Prelude.Int.{pos}
use buddy2api.Prelude.Sort.{sort_on}
use buddy2api.Routing.{Account, account_available, quota_exhausted, get_active_accounts, sort_key}
use buddy2api.Picker.{
  Pool, Memory, pinned_for, candidates, highest_priority, top_candidates, highest_weight,
  pick_account,
}
use buddy2api.Picker.Pinned.{IsPinnedPick, pick_account-IsPinnedPick}
use buddy2api.Picker.Candidates.{IsBestPick, pick_account-IsBestPick}

abbrev row : ℕ → ℕ → ℕ → Account
row id priority weight = record {
  id = id;
  provider = "qoder";
  active = true;
  priority = some (pos priority);
  weight = some (pos weight);
  total_requests = none;
}

abbrev pool : Pool
pool = record {
  accounts = row 1 9 1 ∷ row 2 5 1 ∷ row 3 5 2 ∷ row 4 5 2 ∷ [];
  cache = λ n. none;
  exempt = [];
  excluded = λ n. false;
  cooling = λ n. n == 1;
}

abbrev sticky_on : ℕ → Memory
sticky_on n = record { sticky = λ p. some n; noted = [] }

first_pick : (pick_account pool none "qoder" (sticky_on 2)).0 ≡ some (row 3 5 2)
unfolding pick_account pinned_for candidates highest_priority top_candidates highest_weight sort_on
    sort_key account_available quota_exhausted get_active_accounts
first_pick = refl

sticky_pick : (pick_account pool none "qoder" (sticky_on 4)).0 ≡ some (row 4 5 2)
unfolding pick_account pinned_for candidates highest_priority top_candidates highest_weight sort_on
    sort_key account_available quota_exhausted get_active_accounts
sticky_pick = refl

pinned : pinned_for (some (row 2 5 1)) "qoder" ≡ some (row 2 5 1)
unfolding pinned_for
pinned = refl

pick_account-IsPinnedPick_example :
    IsPinnedPick pool
      (row 2 5 1)
      (sticky_on 4)
      (pick_account pool (some (row 2 5 1)) "qoder" (sticky_on 4))
pick_account-IsPinnedPick_example =
    pick_account-IsPinnedPick pool (some (row 2 5 1)) (row 2 5 1) "qoder" (sticky_on 4) pinned

unpinned : pinned_for none "qoder" ≡ none
unfolding pinned_for
unpinned = refl

pick_account-IsBestPick_example :
    IsBestPick pool "qoder" (pick_account pool none "qoder" (sticky_on 2)).0
pick_account-IsBestPick_example = pick_account-IsBestPick pool none "qoder" (sticky_on 2) unpinned
