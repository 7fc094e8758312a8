-- ===== src/Router/Queue.antt =====
-- router.py, `account_queue`: every account that a request may spend, in order.
use buddy2api.Prelude.{
  ℕ, false, ◌||◌, Bool, true, not, ◌&&◌, Option, none, some, List, [], ◌∷◌, map, String, str_eq,
  length, if◌then◌else◌, ◌==◌,
}
use buddy2api.Prelude.Int.{ℤ}
use buddy2api.Prelude.Order.{Order, Ratio, nat_order, int_order, ratio_order, descending, lex}
use buddy2api.Prelude.Sort.{sort_on}
use buddy2api.Prelude.Member.{keep}
use buddy2api.Prelude.Texts.{is_empty}
use buddy2api.Routing.{Account, channel_pool, priority_of, weight_of, load, requests_of}
use buddy2api.Routing.Numbering.{position_from}
use buddy2api.Router.{
  ApiKey, Gateway, Provider, provider_of, channel_order, namespaced, channel_accepts,
  pinned_channel, model_allowed, shares,
}
use buddy2api.Router.Admission.{is_none}
use mathlib.Core.List.{flat_map}

-- A row of the queue: the channel and the account.
abbrev pub Hop : Type 0
Hop = String × Account

abbrev pub exempt_names : Option Provider → String → List String
exempt_names none base = []
exempt_names (some p) base = base ∷ p.translate_model base ∷ []

abbrev pub is_exempt : Gateway → String → String → Bool
is_exempt g base channel =
    channel_accepts g channel base
    && shares (exempt_names (provider_of g channel) base) (g.exempt_models channel)

-- `_quota_exempt_channels`
unfoldable pub quota_exempt_channels : Gateway → String → List String
unfolding channel_order channel_accepts
quota_exempt_channels g base =
    if is_empty base then [] else keep (is_exempt g base) (channel_order g)

-- `wanted is not None and channel != wanted`, negated
abbrev pub fits : Option String → String → Bool
fits none channel = true
fits (some wanted) channel = str_eq channel wanted

-- The guards of the loop over the channels. `name` is the split name, `none` for the whole pool.
abbrev pub serves_name : Gateway → Option ApiKey → Option (Option String × String) → String → Bool
serves_name g key none channel = true
serves_name g key (some (prefix, base)) channel =
    fits prefix channel && (channel_accepts g channel base && model_allowed g key channel base)

abbrev pub is_open : Gateway → Option ApiKey → Option (Option String × String) → String → Bool
is_open g key name channel =
    fits (pinned_channel key) channel
    && (serves_name g key name channel && not (is_none (provider_of g channel)))

abbrev pub is_ready : Gateway → Account → Bool
is_ready g account = not (account.id == 0) && not (g.cooling account.id)

abbrev pub exempt_for : Gateway → Option (Option String × String) → List String
exempt_for g none = []
exempt_for g (some (prefix, base)) = quota_exempt_channels g base

abbrev pub hops_of : Gateway → List String → String → List Hop
hops_of g exempt channel =
    map (λ account. (channel, account))
      (keep (is_ready g) (channel_pool g.cache exempt g.accounts channel))

unfoldable pub rows : Gateway → Option ApiKey → Option (Option String × String) → List Hop
unfolding channel_order channel_accepts model_allowed pinned_channel channel_pool
    quota_exempt_channels flat_map
rows g key name =
    flat_map (hops_of g (exempt_for g name)) (keep (is_open g key name) (channel_order g))

-- `rank.get(channel, len(order))`
abbrev pub rank : List String → String → ℕ
rank order channel = elim (position_from 0 order channel) [
  | none ↦ length order
  | some index ↦ index
]

-- `0 if preferred.get(channel) == id else 1`
abbrev pub sticky_rank : Option ℕ → ℕ → ℕ
sticky_rank none id = 1
sticky_rank (some preferred) id = if preferred == id then 0 else 1

abbrev pub QueueKey : Type 0
QueueKey = ℤ × (ℕ × (ℕ × (ℕ × (Ratio × (ℕ × ℕ)))))

unfoldable pub queue_key : Gateway → Hop → QueueKey
unfolding channel_order
queue_key g (channel, account) = (
  priority_of account,
  (
    rank (channel_order g) channel,
    (
      weight_of account,
      (
        sticky_rank (g.preferred channel) account.id,
        (load account, (requests_of account, account.id)),
      ),
    ),
  ),
)

abbrev pub queue_order : Order QueueKey
queue_order = lex (descending int_order) (
    lex nat_order
      (lex (descending nat_order) (lex nat_order (lex ratio_order (lex nat_order nat_order)))))

-- `_namespaced(name) if name`
abbrev pub split_name : Option String → Option (Option String × String)
split_name none = none
split_name (some name) = if is_empty name then none else some (namespaced name)

unfoldable pub account_queue : Gateway → Option ApiKey → Option String → List Hop
unfolding rows queue_key sort_on namespaced
account_queue g key name = sort_on queue_order (queue_key g) (rows g key (split_name name))

abbrev pub has_some {ℓ} : {A : Type ℓ} → List A → Bool
has_some [] = false
has_some (x ∷ xs) = true

-- The test of `routable_channel_ids` on one channel: its pool, or the pool of its exempt models, is not empty.
abbrev pub is_routable : Gateway → String → Bool
is_routable g channel =
    has_some (channel_pool g.cache [] g.accounts channel)
    || (has_some (g.exempt_models channel)
        && has_some (channel_pool g.cache (channel ∷ []) g.accounts channel))

unfoldable pub routable_channel_ids : Gateway → List String
unfolding channel_order channel_pool
routable_channel_ids g = keep (is_routable g) (channel_order g)
