-- ===== src/Router/Tests.antt =====
-- The router at a concrete deployment.
use buddy2api.Prelude.{
  ℕ, ◌≡◌, ◌↔◌, refl, subst, true, false, Option, none, some, List, [], ◌∷◌, map, String, str_eq,
  if◌then◌else◌, ◌==◌, inl, inr,
}
use buddy2api.Prelude.Int.{pos}
use buddy2api.Prelude.Member.{In}
use buddy2api.Prelude.Sort.{sort_on}
use buddy2api.Prelude.Texts.{strip, lstrip, rstrip, partition, Nodup, is_empty}
use buddy2api.Providers.Enabled.{IsEnabledList}
use buddy2api.Routing.{
  Account, channel_pool, order_accounts, account_available, quota_exhausted, get_active_accounts,
  sort_key,
}
use buddy2api.Routing.Ranking.{Pairs}
use buddy2api.Router.{
  Provider, ApiKey, Gateway, listed, normalize_channel_order, channel_order, namespaced,
  channel_accepts, key_channel, pinned_channel, visible_channels, model_allowed,
}
use buddy2api.Router.ChannelOrder.{
  normalize_channel_order-Nodup, normalize_channel_order_idempotent,
}
use buddy2api.Router.Admission.{
  admitted, refused, unknown_model, admit_text, admit_model, text, channels_for_name, clean_text,
}
use buddy2api.Router.Admitted.{MayServe, admit_text-MayServe}
use buddy2api.Router.Queue.{Hop, rows, account_queue, split_name, queue_key, quota_exempt_channels}
use buddy2api.Router.Queued.{IsQueued, In-account_queue}
use buddy2api.Router.Agreement.{account_queue-admit_text}
use buddy2api.Router.Sorted.{ComesBefore, account_queue-Pairs}
use buddy2api.Router.Walk.{
  stream, Line, error_object, other, dispatched, opened, closed, noted, reserved, Dispatch,
  streaming, leaves_open, walk, hop_step, stream_first_is_error, stream_error,
}
use mathlib.Core.List.{flat_map}

abbrev ids : List String
ids = "workbuddy" ∷ "qoder" ∷ "loomy" ∷ []

-- Every channel knows the model "auto", and qoder calls "flash" by another name.
abbrev plain : Provider
plain = record { accepts_model = λ m. some (str_eq m "auto"); translate_model = λ m. m }

abbrev qoder : Provider
qoder = record {
  accepts_model =
      λ m. if str_eq m "auto" then some true else (if str_eq m "flash" then some true else none);
  translate_model = λ m. if str_eq m "flash" then "Q-Flash" else m;
}

abbrev row : ℕ → String → Account
row id provider = record {
  id = id;
  provider = provider;
  active = true;
  priority = none;
  weight = none;
  total_requests = some (pos id);
}

abbrev gateway : Gateway
gateway = record {
  ids = ids;
  loaded = λ c.
      if str_eq c "qoder"
      then some qoder
      else (if str_eq c "loomy"
          then some plain
          else (if str_eq c "workbuddy" then some plain else none));
  order_setting = " loomy " ∷ "nowhere" ∷ "loomy" ∷ [];
  exempt_models = λ c. [];
  cache = λ n. none;
  accounts = row 1 "qoder" ∷ row 2 "qoder" ∷ row 3 "loomy" ∷ row 4 "qoder" ∷ [];
  cooling = λ n. n == 1;
  preferred = λ c. if str_eq c "qoder" then some 4 else none;
}

abbrev open_key : Option ApiKey
open_key = some (record { default_channel = "*"; allowed_models = "qoder/Q-Flash" ∷ "auto" ∷ [] })

order : channel_order gateway ≡ "loomy" ∷ "workbuddy" ∷ "qoder" ∷ []
unfolding channel_order normalize_channel_order listed strip lstrip rstrip
order = refl

flash : admit_model gateway open_key (text " qoder/flash ") ≡ admitted "flash"
unfolding admit_model admit_text clean_text channel_order normalize_channel_order listed strip
    lstrip rstrip namespaced partition channels_for_name pinned_channel visible_channels key_channel
    model_allowed channel_accepts
flash = refl

not_there :
    admit_model gateway open_key (text "loomy/flash") ≡ refused (unknown_model "loomy/flash")
unfolding admit_model admit_text clean_text channel_order normalize_channel_order listed strip
    lstrip rstrip namespaced partition channels_for_name pinned_channel visible_channels key_channel
    model_allowed channel_accepts
not_there = refl

queue_ids : map (λ h. h.1.id) (account_queue gateway open_key (some "auto")) ≡ 3 ∷ 4 ∷ 2 ∷ []
unfolding account_queue rows flat_map quota_exempt_channels queue_key sort_on channel_pool
    order_accounts get_active_accounts account_available quota_exhausted sort_key channel_order
    normalize_channel_order listed strip lstrip rstrip namespaced partition pinned_channel
    key_channel model_allowed channel_accepts
queue_ids = refl

once : Nodup ids
once = (refl, (refl, (refl, tt)))

trimmed : (x : String) → In x ids → strip x ≡ x
unfolding strip lstrip rstrip
trimmed x (inl e) = subst (λ s. strip s ≡ s) e refl
trimmed x (inr (inl e)) = subst (λ s. strip s ≡ s) e refl
trimmed x (inr (inr (inl e))) = subst (λ s. strip s ≡ s) e refl
trimmed x (inr (inr (inr i))) = absurd i

usable : IsEnabledList ids
usable = (refl, once, ((refl, refl), ((refl, refl), ((refl, refl), tt))))

normalize_channel_order-Nodup_example :
    Nodup (normalize_channel_order ids (" loomy " ∷ []))
    × ((x : String) → In x (normalize_channel_order ids (" loomy " ∷ [])) ↔ In x ids)
normalize_channel_order-Nodup_example = normalize_channel_order-Nodup ids (" loomy " ∷ []) once

normalize_channel_order_idempotent_example :
    normalize_channel_order ids (normalize_channel_order ids (" loomy " ∷ []))
    ≡ normalize_channel_order ids (" loomy " ∷ [])
normalize_channel_order_idempotent_example =
    normalize_channel_order_idempotent ids (" loomy " ∷ []) once trimmed

admit_text-MayServe_example : (admit_text gateway open_key "qoder/flash" ≡ admitted "flash") ↔ (
    ((namespaced "qoder/flash").1 ≡ "flash")
    × MayServe gateway open_key (namespaced "qoder/flash").0 "flash")
admit_text-MayServe_example = admit_text-MayServe gateway open_key "qoder/flash" "flash" usable

In-account_queue_example :
    In ("loomy", row 3 "loomy") (account_queue gateway open_key (some "auto"))
    ↔ IsQueued gateway open_key (split_name (some "auto")) "loomy" (row 3 "loomy")
In-account_queue_example = In-account_queue gateway open_key (some "auto") "loomy" (row 3 "loomy")

full_inner : is_empty (namespaced "auto").1 ≡ false
unfolding namespaced partition
full_inner = refl

first_hop : In ("loomy", row 3 "loomy") (account_queue gateway open_key (some "auto"))
unfolding account_queue rows flat_map quota_exempt_channels queue_key sort_on channel_pool
    order_accounts get_active_accounts account_available quota_exhausted sort_key channel_order
    normalize_channel_order listed strip lstrip rstrip namespaced partition pinned_channel
    key_channel model_allowed channel_accepts
first_hop = inl refl

account_queue-admit_text_example :
    admit_text gateway open_key "auto" ≡ admitted (namespaced "auto").1
account_queue-admit_text_example =
    account_queue-admit_text gateway open_key "auto" "loomy" (row 3 "loomy") usable refl full_inner
      first_hop

account_queue-Pairs_example :
    Pairs (ComesBefore gateway) (account_queue gateway open_key (some "auto"))
account_queue-Pairs_example = account_queue-Pairs gateway open_key (some "auto")

-- The first hop's stream begins with an error, the second one works.
abbrev hops : List Hop
hops = ("loomy", row 3 "loomy") ∷ ("qoder", row 4 "qoder") ∷ ("qoder", row 2 "qoder") ∷ []

abbrev busy : Line
busy = record {
  begins_stripped = true;
  begins = true;
  payload = error_object "local_rate_limit" "wait";
}

abbrev content : Line
content = record { begins_stripped = true; begins = true; payload = other }

abbrev upstream_of : Dispatch
upstream_of past hop =
    if hop.1.id == 4
    then stream (some (record { is_utf8 = true; lines = content ∷ [] }))
    else stream (some (record { is_utf8 = true; lines = busy ∷ [] }))

walked : walk gateway upstream_of hops (reserved ∷ []) none ≡ (
  streaming ("qoder", row 4 "qoder"),
  reserved
      ∷ dispatched ("loomy", row 3 "loomy")
      ∷ opened ("loomy", row 3 "loomy")
      ∷ closed ("loomy", row 3 "loomy")
      ∷ dispatched ("qoder", row 4 "qoder")
      ∷ opened ("qoder", row 4 "qoder")
      ∷ noted ("qoder", row 4 "qoder")
      ∷ [],
)
unfolding walk hop_step stream_first_is_error stream_error
walked = refl

-- The first hop's error chunk has a byte that is no UTF-8.
abbrev garbled : Dispatch
garbled past hop = stream (some (record { is_utf8 = false; lines = busy ∷ [] }))

walk_raises : walk gateway garbled hops (reserved ∷ []) none ≡ (
  leaves_open ("loomy", row 3 "loomy"),
  reserved ∷ dispatched ("loomy", row 3 "loomy") ∷ opened ("loomy", row 3 "loomy") ∷ [],
)
unfolding walk hop_step stream_first_is_error stream_error
walk_raises = refl
