-- ===== src/Aliases.antt =====
-- aliases.py: the model aliases of each channel, those of the user over the built-in ones.
-- The built-in table of a channel is an argument, and so is the value of the setting, `none` where the database has no table for it.
pub mod Dicts
pub mod Stripped
pub mod Stored
pub mod Resolved
mod Tests
use Prim.Native.String.{[] as empty, ◌++◌ as ◌+++◌}
use buddy2api.Prelude.{
  Bool, true, false, not, ◌&&◌, ◌||◌, Option, none, some, List, [], ◌∷◌, String, str_eq,
  if◌then◌else◌,
}
use buddy2api.Prelude.Texts.{strip, is_empty}
use buddy2api.History.{Json, null, plain, str, arr, obj, Fields, no_fields, field, is_truthy}
use buddy2api.ContextBudget.Rejection.{contains}
use buddy2api.Providers.{is_known_channel}

-- A dict with text keys.
module _ {A : Type 0} where
  abbrev pub has_entry : String → List (String × A) → Bool
  has_entry k [] = false
  has_entry k ((j, b) ∷ m) = str_eq j k || has_entry k m

  abbrev pub find_entry : String → List (String × A) → Option A
  find_entry k [] = none
  find_entry k ((j, b) ∷ m) = if str_eq j k then some b else find_entry k m

  abbrev pub put_entry : String → A → List (String × A) → List (String × A)
  put_entry k a [] = (k, a) ∷ []
  put_entry k a ((j, b) ∷ m) =
      let rest = put_entry k a m in if str_eq j k then (j, a) ∷ m else (j, b) ∷ rest

abbrev pub AliasMap : Type 0
AliasMap = List (String × String)

abbrev pub Stored : Type 0
Stored = List (String × AliasMap)

-- `_clean_map`
abbrev pub put_clean : String → String → AliasMap → AliasMap
put_clean alias target out =
    if is_empty alias || is_empty target then out else put_entry alias target out

unfoldable pub clean_fields : Fields → AliasMap → AliasMap
clean_fields no_fields out = out
clean_fields (field key (str value) raw) out =
    clean_fields raw (put_clean (strip key) (strip value) out)
clean_fields (field key _ raw) out = clean_fields raw out

unfoldable pub clean_map : Json → AliasMap
unfolding clean_fields
clean_map (obj d) = clean_fields d []
clean_map _ = []

-- `load_user_aliases`
abbrev pub any_object : Fields → Bool
any_object no_fields = false
any_object (field key (obj d) raw) = true
any_object (field key _ raw) = any_object raw

unfoldable pub load_channels : Fields → Stored → Stored
unfolding clean_map
load_channels no_fields out = out
load_channels (field channel (obj d) raw) out =
    load_channels raw (put_entry channel (clean_map (obj d)) out)
load_channels (field channel _ raw) out = load_channels raw out

abbrev pub load_object : Fields → Stored
load_object no_fields = []
load_object (field key j raw) =
    if any_object (field key j raw)
    then load_channels (field key j raw) []
    else ("workbuddy", clean_map (obj (field key j raw))) ∷ []

unfoldable pub load_user_aliases : Option Json → Stored
unfolding load_channels clean_map
load_user_aliases (some (obj d)) = load_object d
load_user_aliases _ = []

-- `user_aliases_for`, `merged_map` and `resolve`
abbrev pub map_or_empty : Option AliasMap → AliasMap
map_or_empty none = []
map_or_empty (some m) = m

abbrev pub user_aliases_for : String → Option Json → AliasMap
user_aliases_for channel setting = map_or_empty (find_entry channel (load_user_aliases setting))

abbrev pub merge : AliasMap → AliasMap → AliasMap
merge out [] = out
merge out ((k, v) ∷ user) = merge (put_entry k v out) user

abbrev pub or_same : Option String → String → String
or_same none value = value
or_same (some target) value = target

module _ (builtin : String → AliasMap) where
  unfoldable pub merged_map : String → Option Json → AliasMap
  unfolding load_user_aliases
  merged_map channel setting = merge (builtin channel) (user_aliases_for channel setting)

  unfoldable pub resolve : String → String → Option Json → String
  unfolding merged_map
  resolve channel model setting =
      let value = strip model in
      if is_empty value
      then value
      else or_same (find_entry value (merged_map channel setting)) value

-- `save_user_aliases`, with the text of an AliasError.
pub data Saving (A : Type 0) : Type 0 where
  alias_error : String → Saving A
  saved : A → Saving A

abbrev pub all_text : Fields → Bool
all_text no_fields = true
all_text (field key (str s) d) = all_text d
all_text (field key _ d) = false

abbrev pub payload_of : Fields → Fields
payload_of no_fields = no_fields
payload_of (field key j d) =
    if all_text (field key j d)
    then field "workbuddy" (obj (field key j d)) no_fields
    else field key j d

module _ (builtin : String → AliasMap) where
  -- The loop over the aliases of a channel.
  unfoldable pub clean_saved : String → Fields → AliasMap → Saving AliasMap
  unfolding contains
  clean_saved name no_fields clean = saved clean
  clean_saved name (field key (str value) mapping) clean =
      let alias = strip key in
      let target = strip value in
      let skip = clean_saved name mapping clean in
      let keep = clean_saved name mapping (put_entry alias target clean) in
      if is_empty alias || is_empty target
      then skip
      else if contains "/" alias
      then alias_error "alias must not contain '/'"
      else if has_entry alias (builtin name)
      then skip
      else keep
  clean_saved name (field key _ mapping) clean =
      alias_error "aliases must map string names to string model IDs"

  abbrev pub save_mapping : String → Json → Saving AliasMap
  save_mapping name (obj mapping) =
      if all_text mapping
      then clean_saved name mapping []
      else alias_error "aliases must map string names to string model IDs"
  save_mapping name _ = alias_error ("aliases for '" +++ (name +++ "' must be an object"))

  abbrev pub save_channel : String → Json → Saving AliasMap
  save_channel name mapping =
      if is_empty name
      then alias_error "channel is required"
      else if not (is_known_channel name)
      then alias_error ("unknown channel '" +++ (name +++ "'"))
      else save_mapping name mapping

  unfoldable pub save_channels : Fields → Stored → Saving Stored
  unfolding clean_saved
  save_channels no_fields stored = saved stored
  save_channels (field channel mapping payload) stored =
      let name = strip channel in
      elim (save_channel name mapping) [
        | alias_error e ↦ alias_error e
        | saved clean ↦ save_channels payload (put_entry name clean stored)
      ]

  -- What is stored, where nothing is refused; the setting is the one before.
  unfoldable pub save_user_aliases : Json → Option Json → Saving Stored
  unfolding save_channels load_user_aliases
  save_user_aliases (obj data_fields) setting =
      save_channels (payload_of data_fields) (load_user_aliases setting)
  save_user_aliases _ setting = alias_error "aliases must be an object"

-- The value of the setting that `db.set_setting` stores.
abbrev pub alias_fields : AliasMap → Fields
alias_fields [] = no_fields
alias_fields ((k, v) ∷ m) = field k (str v) (alias_fields m)

abbrev pub stored_fields : Stored → Fields
stored_fields [] = no_fields
stored_fields ((channel, m) ∷ stored) = field channel (obj (alias_fields m)) (stored_fields stored)
