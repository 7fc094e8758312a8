-- ===== src/Routing/Tests.antt =====
-- The routing order at a concrete table.
use buddy2api.Prelude.{
  ◌≡◌, refl, true, false, none, some, List, [], ◌∷◌, map, ◌==◌, ◌↔◌, if◌then◌else◌,
}
use buddy2api.Prelude.Int.{pos, negsuc}
use buddy2api.Routing.{
  missing, blank, unreadable, number, Snapshot, Account, Cache, quota_exhausted, channel_pool,
  order_accounts, sort_key, account_available, get_active_accounts,
}
use buddy2api.Routing.Gate.{IsRoutable, In-channel_pool}
use buddy2api.Routing.Numbering.{static_order_index}
use buddy2api.Prelude.Member.{In}
use buddy2api.Prelude.Sort.{sort_on}
use buddy2api.Routing.Windows.{Windows, prune_window, note_pick}

abbrev first_account : Account
first_account = record {
  id = 1;
  provider = "qoder";
  active = true;
  priority = none;
  weight = none;
  total_requests = some (pos 9);
}

abbrev heavy : Account
heavy = record {
  id = 2;
  provider = "qoder";
  active = true;
  priority = some (pos 0);
  weight = some (pos 3);
  total_requests = some (pos 40);
}

abbrev urgent : Account
urgent = record {
  id = 3;
  provider = "qoder";
  active = true;
  priority = some (pos 5);
  weight = some (negsuc 0);
  total_requests = none;
}

abbrev drained : Account
drained = record {
  id = 4;
  provider = "qoder";
  active = true;
  priority = some (pos 9);
  weight = none;
  total_requests = none;
}

abbrev elsewhere : Account
elsewhere = record {
  id = 5;
  provider = "loomy";
  active = false;
  priority = none;
  weight = none;
  total_requests = none;
}

abbrev table : List Account
table = first_account ∷ heavy ∷ urgent ∷ drained ∷ elsewhere ∷ []

abbrev zero_reading : Snapshot
zero_reading = record {
  unsupported = false;
  ok = some true;
  remaining = blank;
  available_total = unreadable;
  total_dosage = number (pos 0);
  peak_remaining = missing;
}

abbrev some_reading : Snapshot
some_reading = record {
  unsupported = false;
  ok = none;
  remaining = number (pos 3);
  available_total = missing;
  total_dosage = missing;
  peak_remaining = missing;
}

abbrev cache : Cache
cache n = if n == 4 then some zero_reading else (if n == 1 then some some_reading else none)

pool : map (λ a. a.id) (channel_pool cache [] table "qoder") ≡ 3 ∷ 2 ∷ 1 ∷ []
unfolding channel_pool order_accounts get_active_accounts account_available quota_exhausted sort_on
    sort_key
pool = refl

exempt_pool : map (λ a. a.id) (channel_pool cache ("qoder" ∷ []) table "qoder") ≡ 4 ∷ 3 ∷ 2 ∷ 1 ∷ []
unfolding channel_pool order_accounts get_active_accounts account_available quota_exhausted sort_on
    sort_key
exempt_pool = refl

numbering :
    static_order_index ("loomy" ∷ "qoder" ∷ []) table
    ≡ (4, 1) ∷ (3, 2) ∷ (5, 3) ∷ (2, 4) ∷ (1, 5) ∷ []
unfolding static_order_index sort_on
numbering = refl

In-channel_pool_example :
    In heavy (channel_pool cache [] table "qoder") ↔ IsRoutable cache [] table "qoder" heavy
In-channel_pool_example = In-channel_pool cache [] table "qoder" heavy

abbrev windows : Windows
windows = (7, 1000 ∷ 50000 ∷ []) ∷ []

picked : note_pick 7 61001 60000 windows ≡ (7, 50000 ∷ 61001 ∷ []) ∷ []
unfolding note_pick prune_window
picked = refl
