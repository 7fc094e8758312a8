-- ===== src/Router.antt =====
-- router.py: what a request's model name and key say about the channels.
-- The gateway's surroundings at one request stand in one record.
pub mod ChannelOrder
pub mod Admission
mod Judge
pub mod Admitted
pub mod Queue
pub mod Queued
pub mod Routable
pub mod Agreement
pub mod Sorted
pub mod Walk
pub mod Trace
pub mod Dispatches
mod Tests
use buddy2api.Prelude.{
  ℕ, Bool, true, false, not, ◌&&◌, ◌||◌, Option, none, some, List, [], ◌∷◌, ◌++◌, String, str_eq,
  if◌then◌else◌,
}
use Prim.Native.String.{◌++◌ as ◌+++◌}
use buddy2api.Prelude.Member.{keep}
use buddy2api.Prelude.Texts.{strip, partition, is_empty, str_in}
use buddy2api.Providers.{is_known_channel, get_provider}
use buddy2api.Routing.{Account, Cache}

-- The part of a provider that routing asks: `none` where `accepts_model` raises.
pub record Provider : Type 0 where
  pub accepts_model : String → Option Bool
  pub translate_model : String → String

-- The fields of a stored key; an empty text or list is the same as a missing field.
pub record ApiKey : Type 0 where
  pub default_channel : String
  pub allowed_models : List String

pub record Gateway : Type 0 where
  -- `providers.enabled_provider_ids()` and `providers._LOADED`
  pub ids : List String
  pub loaded : String → Option Provider
  -- the setting `channel_order`, its items as texts
  pub order_setting : List String
  -- `catalog.exempt_models`, empty where it raises
  pub exempt_models : String → List String
  -- the cached readings and the rows of the accounts
  pub cache : Cache
  pub accounts : List Account
  -- the answers of `auth_manager.account_is_cooling_down` and `preferred_account_id`
  pub cooling : ℕ → Bool
  pub preferred : String → Option ℕ

abbrev pub provider_of : Gateway → String → Option Provider
provider_of g = get_provider g.ids g.loaded

-- `value or "workbuddy"`
abbrev pub or_workbuddy : String → String
or_workbuddy s = if is_empty s then "workbuddy" else s

unfoldable pub key_channel : ApiKey → String
unfolding strip
key_channel key = or_workbuddy (strip (or_workbuddy key.default_channel))

abbrev pub key_allows_any : String → Bool
key_allows_any channel = str_eq channel "*"

-- The loop over the configured items.
unfoldable pub listed : List String → List String → List String → List String
unfolding strip
listed known ordered [] = ordered
listed known ordered (item ∷ raw) =
    listed known
      (if str_in (strip item) known && not (str_in (strip item) ordered)
        then ordered ++ strip item ∷ []
        else ordered)
      raw

unfoldable pub normalize_channel_order : List String → List String → List String
unfolding listed
normalize_channel_order known raw =
    let ordered = listed known [] raw in
    ordered ++ keep (λ channel. not (str_in channel ordered)) known

unfoldable pub channel_order : Gateway → List String
unfolding normalize_channel_order
channel_order g = normalize_channel_order g.ids g.order_setting

-- `none` for a bare name.
abbrev pub known_prefix : String → Option (String × String) → Option String × String
known_prefix name none = (none, name)
known_prefix name (some (first, rest)) =
    if is_known_channel first then (some first, rest) else (none, name)

unfoldable pub namespaced : String → Option String × String
unfolding partition
namespaced name = known_prefix name (partition "/" name)

abbrev pub is_true : Option Bool → Bool
is_true (some true) = true
is_true _ = false

unfoldable pub channel_accepts : Gateway → String → String → Bool
channel_accepts g channel name = elim (provider_of g channel) [
  | none ↦ false
  | some p ↦ is_true (p.accepts_model name)
]

-- `_pinned_channel`: the one channel of a key that is bound to one.
unfoldable pub pinned_channel : Option ApiKey → Option String
unfolding key_channel
pinned_channel none = none
pinned_channel (some key) =
    if key_allows_any (key_channel key) then none else some (key_channel key)

unfoldable pub visible_channels : Gateway → Option ApiKey → List String
unfolding key_channel channel_order
visible_channels g none = channel_order g
visible_channels g (some key) =
    if key_allows_any (key_channel key) then channel_order g else key_channel key ∷ []

-- `not set(allowed).isdisjoint(variants)`
abbrev pub shares : List String → List String → Bool
shares [] variants = false
shares (a ∷ allowed) variants = str_in a variants || shares allowed variants

abbrev pub allowed_of : Option ApiKey → List String
allowed_of none = []
allowed_of (some key) = key.allowed_models

-- `f"{channel}/{name}"`
abbrev pub qualified : String → String → String
qualified channel name = channel +++ ("/" +++ name)

abbrev pub variants : Provider → String → String → List String
variants p channel base =
    base
    ∷ p.translate_model base
    ∷ qualified channel base
    ∷ qualified channel (p.translate_model base)
    ∷ []

abbrev pub allowed_on : List String → Option Provider → String → String → Bool
allowed_on [] provider channel base = true
allowed_on allowed none channel base = false
allowed_on allowed (some p) channel base = shares allowed (variants p channel base)

unfoldable pub model_allowed : Gateway → Option ApiKey → String → String → Bool
model_allowed g key channel base = allowed_on (allowed_of key) (provider_of g channel) channel base
