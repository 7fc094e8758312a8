-- ===== src/Routing.antt =====
-- routing.py: which accounts may serve a request, and in which order.
-- An account is a row of the database's table; a reading is a number of the smallest unit that the
-- upstream reports. The quotient of requests and weight is exact.
pub mod Gate
pub mod Ranking
pub mod Numbering
pub mod Windows
pub mod Tracked
mod Tests
use buddy2api.Prelude.{
  ℕ, zero, suc, ◌+◌, ◌-◌, ◌*◌, max, Bool, true, false, not, ◌&&◌, ◌||◌, Option, none, some, List,
  [], ◌∷◌, map, String, str_eq, ltb, if◌then◌else◌,
}
use buddy2api.Prelude.Int.{ℤ, pos, negsuc, leb_ℤ, at_least}
use buddy2api.Prelude.Order.{Order, Ratio, nat_order, int_order, ratio_order, descending, lex}
use buddy2api.Prelude.Sort.{sort_on}
use buddy2api.Prelude.Member.{keep}
use buddy2api.Prelude.Texts.{str_in}

-- A value that a reading may hold.
pub data Cell : Type 0 where
  missing blank unreadable : Cell
  number : ℤ → Cell

abbrev pub first_number : List Cell → Option ℤ
first_number [] = none
first_number (missing ∷ cells) = first_number cells
first_number (blank ∷ cells) = first_number cells
first_number (unreadable ∷ cells) = first_number cells
first_number (number n ∷ cells) = some n

pub record Snapshot : Type 0 where
  pub unsupported : Bool
  pub ok : Option Bool
  pub remaining : Cell
  pub available_total : Cell
  pub total_dosage : Cell
  pub peak_remaining : Cell

pub record Account : Type 0 where
  pub id : ℕ
  pub provider : String
  pub active : Bool
  pub priority : Option ℤ
  pub weight : Option ℤ
  pub total_requests : Option ℤ

-- `db.get_account_resource_cache`: `none` where it has no dict or raises.
abbrev pub Cache : Type 0
Cache = ℕ → Option Snapshot

-- `resource_snapshot`, with `none` for the empty dict.
abbrev pub resource_snapshot : Cache → Account → Option Snapshot
resource_snapshot cache account = elim account.id [ zero ↦ none | suc _ ↦ cache account.id ]

-- `ok is False`
abbrev pub is_false : Option Bool → Bool
is_false (some false) = true
is_false _ = false

abbrev pub snapshot_remaining : Option Snapshot → Option ℤ
snapshot_remaining none = none
snapshot_remaining (some s) =
    if s.unsupported || is_false s.ok
    then none
    else first_number (s.remaining ∷ s.available_total ∷ s.total_dosage ∷ [])

abbrev pub remaining_quota : Cache → Account → Option ℤ
remaining_quota cache account = snapshot_remaining (resource_snapshot cache account)

abbrev pub positive : Option ℤ → Option ℕ
positive (some (pos (suc n))) = some (suc n)
positive _ = none

abbrev pub or_else {ℓ} : {A : Type ℓ} → Option A → Option A → Option A
or_else (some a) b = some a
or_else none b = b

abbrev pub peak_cell : Option Snapshot → Option ℤ
peak_cell none = none
peak_cell (some s) = first_number (s.peak_remaining ∷ [])

unfoldable pub peak_quota : Cache → Account → Option ℕ
peak_quota cache account =
    or_else (positive (peak_cell (resource_snapshot cache account)))
      (positive (remaining_quota cache account))

-- `remaining is not None and remaining <= 0`
abbrev pub is_spent : Option ℤ → Bool
is_spent none = false
is_spent (some n) = leb_ℤ n (pos 0)

unfoldable pub quota_exhausted : Cache → Account → Bool
quota_exhausted cache account = is_spent (remaining_quota cache account)

-- `(remaining / peak) * 100.0 < watermark`
abbrev pub below : Ratio → ℕ → Option ℕ → Bool
below watermark remaining none = false
below watermark remaining (some peak) =
    ltb (remaining * (100 * suc watermark.den_pred)) (watermark.num * peak)

abbrev pub low_reading : Ratio → Option ℤ → Option ℕ → Bool
low_reading watermark none peak = false
low_reading watermark (some (pos (suc n))) peak = below watermark (suc n) peak
low_reading watermark (some _) peak = true

-- The watermark is a percentage, as `low_watermark_pct` returns it: from 0 to 100.
unfoldable pub quota_low : Ratio → Cache → Account → Bool
unfolding peak_quota
quota_low watermark cache account = elim watermark.num [
  | zero ↦ false
  | suc _ ↦ low_reading watermark (remaining_quota cache account) (peak_quota cache account)
]

pub data QuotaState : Type 0 where
  exhausted low fine : QuotaState

unfoldable pub quota_state : Ratio → Cache → Account → QuotaState
unfolding quota_exhausted quota_low
quota_state watermark cache account =
    if quota_exhausted cache account
    then exhausted
    else (if quota_low watermark cache account then low else fine)

-- The set is the context value of `quota_exempt_scope`.
unfoldable pub account_available : Cache → List String → Account → Bool
unfolding quota_exhausted
account_available cache exempt account =
    if str_in account.provider exempt then true else not (quota_exhausted cache account)

abbrev pub priority_of : Account → ℤ
priority_of account = elim account.priority [ none ↦ pos 0 | some n ↦ n ]

-- `int(weight or 1)`, at least 1
abbrev pub weight_cell : Option ℤ → ℕ
weight_cell none = 1
weight_cell (some (pos zero)) = 1
weight_cell (some n) = at_least 1 n

abbrev pub weight_of : Account → ℕ
weight_of account = weight_cell account.weight

abbrev pub requests_cell : Option ℤ → ℕ
requests_cell none = 0
requests_cell (some n) = at_least 0 n

abbrev pub requests_of : Account → ℕ
requests_of account = requests_cell account.total_requests

abbrev pub Key : Type 0
Key = ℤ × (ℕ × (Ratio × (ℕ × ℕ)))

-- `requests / weight`
abbrev pub load : Account → Ratio
load account = record { num = requests_of account; den_pred = weight_of account - 1 }

unfoldable pub sort_key : Account → Key
sort_key account =
    (priority_of account, (weight_of account, (load account, (requests_of account, account.id))))

-- The first two components of the source's tuple are negated.
abbrev pub key_order : Order Key
key_order =
    lex (descending int_order)
      (lex (descending nat_order) (lex ratio_order (lex nat_order nat_order)))

unfoldable pub order_accounts : Cache → List String → List Account → List Account
unfolding sort_key account_available sort_on
order_accounts cache exempt accounts =
    sort_on key_order sort_key (keep (account_available cache exempt) accounts)

-- database.py, `get_active_accounts`: its WHERE clause, for a channel that is not empty as those of the enabled list are; the code raises a ValueError for an empty one. The order of its rows is refined by the sort.
unfoldable pub get_active_accounts : String → List Account → List Account
get_active_accounts channel = keep (λ account. account.active && str_eq account.provider channel)

unfoldable pub channel_pool : Cache → List String → List Account → String → List Account
unfolding order_accounts get_active_accounts
channel_pool cache exempt accounts channel =
    order_accounts cache exempt (get_active_accounts channel accounts)
