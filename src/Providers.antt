-- ===== src/Providers.antt =====
-- providers/__init__.py and providers/protocol.py: the channels that the deployment enables.
pub mod Enabled
mod Tests
use buddy2api.Prelude.{
  Bool, true, false, not, ◌||◌, Option, none, some, List, [], ◌∷◌, ◌++◌, map, String, str_eq,
  if◌then◌else◌,
}
use buddy2api.Prelude.Member.{keep}
use buddy2api.Prelude.Texts.{strip, split, is_empty, str_in}

abbrev pub known_channel_ids : List String
known_channel_ids =
    "workbuddy" ∷ "workbuddy-i" ∷ "qclaw" ∷ "qwenwork" ∷ "qoderwork" ∷ "qoder" ∷ "qoder-i"
    ∷ "traework" ∷ "loomy" ∷ "xiaohuanxiong" ∷ []

abbrev pub retired_channel_ids : List String
retired_channel_ids = "qclaw" ∷ []

abbrev pub default_provider_ids : List String
default_provider_ids =
    "workbuddy" ∷ "workbuddy-i" ∷ "qwenwork" ∷ "qoder" ∷ "qoder-i" ∷ "traework" ∷ "loomy"
    ∷ "xiaohuanxiong" ∷ []

abbrev pub is_known_channel : String → Bool
is_known_channel channel = str_in channel known_channel_ids

abbrev pub is_retired_channel : String → Bool
is_retired_channel channel = str_in channel retired_channel_ids

-- The result of `_parse_enabled`; `unknown` holds the ids that the `RuntimeError` names.
pub data Parsed : Type 0 where
  enabled : List String → Parsed
  unknown : List String → Parsed

-- The loop over `parts`.
unfoldable pub append_new : List String → List String → List String
append_new ordered [] = ordered
append_new ordered (item ∷ parts) =
    append_new
      (if str_eq item "workbuddy" || str_in item ordered then ordered else ordered ++ item ∷ [])
      parts

abbrev pub with_workbuddy : List String → List String
with_workbuddy parts = if str_in "workbuddy" parts then parts else "workbuddy" ∷ parts

abbrev pub order_ids : List String → List String → Parsed
order_ids [] parts = enabled (append_new ("workbuddy" ∷ []) (with_workbuddy parts))
order_ids unknown_ids parts = unknown unknown_ids

abbrev pub or_default : List String → Parsed
or_default [] = enabled default_provider_ids
or_default parts = order_ids (keep (λ item. not (is_known_channel item)) parts) parts

-- `raw` is the environment's CB_GATEWAY_PROVIDERS, or the empty text.
unfoldable pub parse_enabled : String → Parsed
unfolding append_new strip split
parse_enabled raw =
    let parts = keep (λ item. not (is_empty item)) (map strip (split "," (strip raw))) in
    if is_empty (strip raw)
    then enabled default_provider_ids
    else or_default (keep (λ item. not (is_retired_channel item)) parts)

abbrev pub is_channel_enabled : List String → String → Bool
is_channel_enabled ids channel = str_in channel ids

-- `_LOADED` is a function from ids.
abbrev pub get_provider {ℓ} : {P : Type ℓ} → List String → (String → Option P) → String → Option P
get_provider ids loaded channel = if is_channel_enabled ids channel then loaded channel else none
