-- ===== src/Router/Admission.antt =====
-- router.py, `admit_model`: the one admission check of a request.
use buddy2api.Prelude.{
  Bool, true, false, not, ◌||◌, Option, none, some, List, [], ◌∷◌, String, if◌then◌else◌,
}
use buddy2api.Prelude.Member.{keep}
use buddy2api.Prelude.Texts.{strip, is_empty, str_in}
use buddy2api.Providers.{is_retired_channel, is_channel_enabled}
use buddy2api.Router.{
  ApiKey, Gateway, provider_of, channel_order, namespaced, channel_accepts, pinned_channel,
  visible_channels, allowed_of, model_allowed,
}

-- The request's `model`; `other` is a value that is not a string.
pub data Name : Type 0 where
  absent other : Name
  text : String → Name

-- The HTTP errors with status 400, by the code and the cause.
pub data Refusal : Type 0 where
  invalid_type : Refusal
  channel_retired : String → Refusal
  unknown_channel : String → Refusal
  not_visible : String → Refusal
  missing_inner : String → Refusal
  unknown_model : String → Refusal
  not_whitelisted : String → Refusal

pub data Verdict : Type 0 where
  admitted : String → Verdict
  refused : Refusal → Verdict

abbrev pub is_none {ℓ} : {A : Type ℓ} → Option A → Bool
is_none none = true
is_none (some a) = false

-- `not is_channel_enabled(c) or get_provider(c) is None`
abbrev pub is_off : Gateway → String → Bool
is_off g channel = not (is_channel_enabled g.ids channel) || is_none (provider_of g channel)

-- `_channels_for_name`
unfoldable pub channels_for_name : Gateway → String → List String
unfolding channel_order channel_accepts
channels_for_name g name = keep (λ channel. channel_accepts g channel name) (channel_order g)

abbrev pub any : (String → Bool) → List String → Bool
any p [] = false
any p (x ∷ xs) = p x || any p xs

-- The last two checks: some channel has the name, and the whitelist has one of its spellings.
abbrev pub whitelisted :
    Gateway → Option ApiKey → String → String → List String → List String → Verdict
whitelisted g key name base candidates [] = admitted base
whitelisted g key name base candidates allowed =
    if any (λ channel. model_allowed g key channel base) candidates
    then admitted base
    else refused (not_whitelisted name)

abbrev pub judge : Gateway → Option ApiKey → String → String → List String → Verdict
judge g key name base [] = refused (unknown_model name)
judge g key name base candidates = whitelisted g key name base candidates (allowed_of key)

-- A name with a known channel before its first slash.
abbrev pub admit_prefixed : Gateway → Option ApiKey → String → String → String → Verdict
admit_prefixed g key name prefix base =
    if is_retired_channel prefix
    then refused (channel_retired prefix)
    else (if is_off g prefix
        then refused (unknown_channel prefix)
        else (if not (str_in prefix (visible_channels g key))
            then refused (not_visible name)
            else (if is_empty base
                then refused (missing_inner name)
                else (if not (channel_accepts g prefix base)
                    then refused (unknown_model name)
                    else judge g key name base (prefix ∷ [])))))

abbrev pub judge_bare : Gateway → Option ApiKey → String → Verdict
judge_bare g key name =
    judge g key name name
      (keep (λ channel. str_in channel (visible_channels g key)) (channels_for_name g name))

abbrev pub admit_bare : Gateway → Option ApiKey → String → Option String → Verdict
admit_bare g key name none = judge_bare g key name
admit_bare g key name (some pinned) =
    if is_retired_channel pinned
    then refused (channel_retired pinned)
    else (if is_off g pinned then refused (unknown_channel pinned) else judge_bare g key name)

abbrev pub admit_split : Gateway → Option ApiKey → String → Option String × String → Verdict
admit_split g key name (some prefix, base) = admit_prefixed g key name prefix base
admit_split g key name (none, base) = admit_bare g key name (pinned_channel key)

-- `name or "auto"`
abbrev pub or_auto : String → String
or_auto s = if is_empty s then "auto" else s

unfoldable pub clean_text : String → String
unfolding strip
clean_text s = or_auto (strip (or_auto s))

unfoldable pub admit_text : Gateway → Option ApiKey → String → Verdict
unfolding namespaced channels_for_name pinned_channel visible_channels model_allowed
admit_text g key name = admit_split g key name (namespaced name)

unfoldable pub admit_model : Gateway → Option ApiKey → Name → Verdict
unfolding admit_text clean_text
admit_model g key absent = admit_text g key "auto"
admit_model g key other = refused invalid_type
admit_model g key (text s) = admit_text g key (clean_text s)
