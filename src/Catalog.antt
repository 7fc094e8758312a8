-- ===== src/Catalog.antt =====
-- catalog.py: the models of a channel that it serves although an account's quota reads zero.
-- A setting is `none` where the database has no value for it, or no table to read. The text that `str` makes of a list or a dict is an argument. Its keys being distinct, `pop` leaves out every entry of the key.
mod Entries
pub mod Marked
mod Tests
use Prim.Native.Char.{code}
use Prim.Native.String.{[] as empty, ◌∷◌ as ◌◁◌, ◌++◌ as ◌+++◌}
use buddy2api.Prelude.{
  Bool, true, false, not, ◌&&◌, ◌||◌, ◌==◌, Option, none, some, List, [], ◌∷◌, ◌++◌, String, str_eq,
  if◌then◌else◌,
}
use buddy2api.Prelude.Texts.{strip, is_empty, str_in}
use buddy2api.Prelude.Member.{keep}
use buddy2api.Prelude.Sort.{sort_on}
use buddy2api.Prelude.TextOrder.{text_order}
use buddy2api.History.{
  Json, null, plain, str, arr, obj, Items, no_items, item, Fields, no_fields, field, get, is_truthy,
}
use buddy2api.ToolHistory.{put}
use buddy2api.Providers.{is_channel_enabled}

-- `_load_map`
abbrev pub load_map : Option Json → Fields
load_map (some (obj d)) = d
load_map _ = no_fields

-- `mid[len(prefix):]` where `mid.startswith(prefix)`
abbrev pub text_after : String → String → Option String
text_after empty s = some s
text_after (c ◁ prefix) empty = none
text_after (c ◁ prefix) (d ◁ s) = if code c == code d then text_after prefix s else none

abbrev pub strip_rest : Option String → String → String
strip_rest none mid = mid
strip_rest (some rest) mid = strip rest

-- `_normalize_model_id`
unfoldable pub normalize_model_id : String → String → String
normalize_model_id channel model_id =
    strip_rest (text_after (channel +++ "/") (strip model_id)) (strip model_id)

abbrev pub all_but : String → List String → List String
all_but mid = keep (λ id. not (str_eq id mid))

-- `mapping.pop(channel, None)`
abbrev pub pop_channel : String → Fields → Fields
pop_channel key no_fields = no_fields
pop_channel key (field k j d) =
    if str_eq k key then pop_channel key d else field k j (pop_channel key d)

abbrev pub id_items : List String → Items
id_items [] = no_items
id_items (id ∷ ids) = item (str id) (id_items ids)

-- The mapping with the list of one channel replaced, or its entry removed where nothing is left.
abbrev pub with_list : String → List String → Fields → Fields
with_list channel [] mapping = pop_channel channel mapping
with_list channel (id ∷ ids) mapping =
    put channel (arr (id_items (sort_on text_order (λ s. s) (id ∷ ids)))) mapping

-- What `set_exempt` leaves: a CatalogError, or the channel, the model and the value of the setting.
pub data Marking : Type 0 where
  catalog_error : String → Marking
  marked : String → String → Fields → Marking

module _ (dump : Json → String) where
  -- `str(item or "").strip()`
  abbrev pub text_of : Json → String
  text_of (str s) = s
  text_of (plain s) = s
  text_of j = dump j

  abbrev pub item_text : Json → String
  item_text j = if is_truthy (some j) then strip (text_of j) else ""

  unfoldable pub item_texts : Items → List String
  unfolding strip
  item_texts no_items = []
  item_texts (item j items) =
      if is_empty (item_text j) then item_texts items else item_text j ∷ item_texts items

  abbrev pub listed_ids : Option Json → List String
  listed_ids (some (arr items)) = item_texts items
  listed_ids _ = []

  -- `exempt_models`
  unfoldable pub exempt_models : String → Option Json → List String
  unfolding item_texts
  exempt_models channel setting = listed_ids (get channel (load_map setting))

  -- `is_exempt`
  unfoldable pub is_exempt : String → String → Option Json → Bool
  unfolding normalize_model_id exempt_models
  is_exempt channel model_id setting =
      let target = normalize_model_id channel model_id in
      not (is_empty target) && str_in target (exempt_models channel setting)

  abbrev pub new_marks : String → String → Bool → Option Json → List String
  new_marks channel mid exempt setting =
      all_but mid (exempt_models channel setting) ++ (if exempt then mid ∷ [] else [])

  -- `set_exempt`, with the list of the channels that are switched on.
  unfoldable pub set_exempt : List String → String → String → Bool → Option Json → Marking
  unfolding normalize_model_id exempt_models
  set_exempt enabled channel model_id exempt setting =
      let name = strip channel in
      let mid = normalize_model_id name model_id in
      if is_empty name || not (is_channel_enabled enabled name)
      then catalog_error "unknown or disabled channel"
      else if is_empty mid
      then catalog_error "model id is required"
      else marked name mid (with_list name (new_marks name mid exempt setting) (load_map setting))

-- What the setting holds after it.
abbrev pub setting_after : Marking → Option Json → Option Json
setting_after (catalog_error e) setting = setting
setting_after (marked channel mid mapping) setting = some (obj mapping)
