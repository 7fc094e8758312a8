-- ===== src/Aliases/Stored.antt =====
-- aliases.py: what `save_user_aliases` stores is what `load_user_aliases` reads.
use Prim.Native.String.{String}
use buddy2api.Prelude.{
  ◌≡◌, refl, sym, ap, ◌∙◌, subst, Bool, true, false, not, ◌||◌, inl, inr, Bool-cases, Option, none,
  some, [], ◌∷◌, ◌++◌, if◌then◌else◌, All, append_assoc, append-nil, arith,
}
use buddy2api.Prelude.Texts.{strip, is_empty}
use buddy2api.History.{Json, null, plain, str, arr, obj, Fields, no_fields, field}
use buddy2api.ContextBudget.Rejection.{contains}
use buddy2api.Providers.{is_known_channel}
use buddy2api.Aliases.{
  has_entry, put_entry, AliasMap, Stored, put_clean, clean_fields, clean_map, any_object,
  load_channels, load_object, load_user_aliases, Saving, alias_error, saved, all_text, payload_of,
  clean_saved, save_mapping, save_channel, save_channels, save_user_aliases, alias_fields,
  stored_fields,
}
use buddy2api.Aliases.Stripped.{strip_twice}
use buddy2api.Aliases.Dicts.{
  Distinct, put_entry-Distinct, put_entry-All, put_entry-new, Fresh, Fresh-last, Fresh-nil,
}

-- A text that is stripped and not empty; a map of such texts; and channels with such maps.
abbrev pub IsWord : String → Type 0
IsWord s = (strip s ≡ s) × (is_empty s ≡ false)

abbrev pub IsCleanMap : AliasMap → Type 0
IsCleanMap m = Distinct m × All (λ (p : String × String). IsWord p.0 × IsWord p.1) m

abbrev pub IsStored : Stored → Type 0
IsStored stored = Distinct stored × All (λ (p : String × AliasMap). IsCleanMap p.1) stored

put_entry-IsCleanMap :
    (k v : String) (m : AliasMap)
    → IsWord k
    → IsWord v
    → IsCleanMap m
    → IsCleanMap (put_entry k v m)
put_entry-IsCleanMap k v m hk hv h = (
  put_entry-Distinct k v m h.0,
  put_entry-All (λ (p : String × String). IsWord p.0 × IsWord p.1) k v m (hk, hv) h.1,
)

put_entry-IsStored :
    (channel : String) (m : AliasMap) (stored : Stored)
    → IsCleanMap m
    → IsStored stored
    → IsStored (put_entry channel m stored)
put_entry-IsStored channel m stored hm h = (
  put_entry-Distinct channel m stored h.0,
  put_entry-All (λ (p : String × AliasMap). IsCleanMap p.1) channel m stored hm h.1,
)

both_false : (a b : Bool) → (a || b) ≡ false → (a ≡ false) × (b ≡ false)
both_false a b h = ground arith

put_clean-IsCleanMap :
    (key value : String) (out : AliasMap)
    → IsCleanMap out
    → IsCleanMap (put_clean (strip key) (strip value) out)
put_clean-IsCleanMap key value out h =
    elim (Bool-cases (is_empty (strip key) || is_empty (strip value))) [
      | inl t ↦ rw t h
      | inr f ↦
          let (a, b) = both_false (is_empty (strip key)) (is_empty (strip value)) f in
          rw f (
            put_entry-IsCleanMap (strip key) (strip value) out (strip_twice key, a)
              (strip_twice value, b) h)
    ]

clean_fields-IsCleanMap :
    (raw : Fields) (out : AliasMap) → IsCleanMap out → IsCleanMap (clean_fields raw out)
unfolding clean_fields
clean_fields-IsCleanMap no_fields out h = h
clean_fields-IsCleanMap (field key (str value) raw) out h =
    clean_fields-IsCleanMap raw (put_clean (strip key) (strip value) out)
      (put_clean-IsCleanMap key value out h)
clean_fields-IsCleanMap (field key null raw) out h = clean_fields-IsCleanMap raw out h
clean_fields-IsCleanMap (field key (plain s) raw) out h = clean_fields-IsCleanMap raw out h
clean_fields-IsCleanMap (field key (arr js) raw) out h = clean_fields-IsCleanMap raw out h
clean_fields-IsCleanMap (field key (obj d) raw) out h = clean_fields-IsCleanMap raw out h

load_channels-IsStored :
    (raw : Fields) (out : Stored) → IsStored out → IsStored (load_channels raw out)
unfolding load_channels clean_map
load_channels-IsStored no_fields out h = h
load_channels-IsStored (field channel (obj d) raw) out h =
    load_channels-IsStored raw (put_entry channel (clean_fields d []) out)
      (put_entry-IsStored channel (clean_fields d []) out (clean_fields-IsCleanMap d [] (tt, tt)) h)
load_channels-IsStored (field key null raw) out h = load_channels-IsStored raw out h
load_channels-IsStored (field key (plain s) raw) out h = load_channels-IsStored raw out h
load_channels-IsStored (field key (arr js) raw) out h = load_channels-IsStored raw out h
load_channels-IsStored (field key (str s) raw) out h = load_channels-IsStored raw out h

load_object-IsStored : (d : Fields) → IsStored (load_object d)
unfolding clean_map
load_object-IsStored no_fields = (tt, tt)
load_object-IsStored (field key j raw) = elim (Bool-cases (any_object (field key j raw))) [
  | inl t ↦ rw t (load_channels-IsStored (field key j raw) [] (tt, tt))
  | inr f ↦ rw f ((refl, tt), (clean_fields-IsCleanMap (field key j raw) [] (tt, tt), tt))
]

pub load_user_aliases-IsStored : (setting : Option Json) → IsStored (load_user_aliases setting)
unfolding load_user_aliases
load_user_aliases-IsStored none = (tt, tt)
load_user_aliases-IsStored (some null) = (tt, tt)
load_user_aliases-IsStored (some (plain s)) = (tt, tt)
load_user_aliases-IsStored (some (str s)) = (tt, tt)
load_user_aliases-IsStored (some (arr js)) = (tt, tt)
load_user_aliases-IsStored (some (obj d)) = load_object-IsStored d

-- What is saved is clean.
abbrev SavesMap : Saving AliasMap → Type 0
SavesMap (alias_error e) = Unit
SavesMap (saved m) = IsCleanMap m

abbrev SavesAll : Saving Stored → Type 0
SavesAll (alias_error e) = Unit
SavesAll (saved stored) = IsStored stored

if-SavesMap :
    (b : Bool) (x y : Saving AliasMap)
    → SavesMap x
    → (b ≡ false → SavesMap y)
    → SavesMap (if b then x else y)
if-SavesMap true x y h k = h
if-SavesMap false x y h k = k refl

module _ (builtin : String → AliasMap) where
  clean_saved-SavesMap :
      (name : String) (mapping : Fields) (clean : AliasMap)
      → IsCleanMap clean
      → SavesMap (clean_saved builtin name mapping clean)
  unfolding clean_saved
  clean_saved-SavesMap name no_fields clean h = h
  clean_saved-SavesMap name (field key (str value) mapping) clean h =
      if-SavesMap (is_empty (strip key) || is_empty (strip value)) _ _
        (clean_saved-SavesMap name mapping clean h)
        (λ f. if-SavesMap (contains "/" (strip key)) _ _ tt (λ g.
          if-SavesMap (has_entry (strip key) (builtin name)) _ _
            (clean_saved-SavesMap name mapping clean h)
            (λ n.
              let (a, b) = both_false (is_empty (strip key)) (is_empty (strip value)) f in
              clean_saved-SavesMap name mapping (put_entry (strip key) (strip value) clean) (
                put_entry-IsCleanMap (strip key) (strip value) clean (strip_twice key, a)
                  (strip_twice value, b) h))))
  clean_saved-SavesMap name (field key null mapping) clean h = tt
  clean_saved-SavesMap name (field key (plain s) mapping) clean h = tt
  clean_saved-SavesMap name (field key (arr js) mapping) clean h = tt
  clean_saved-SavesMap name (field key (obj d) mapping) clean h = tt

  save_mapping-SavesMap : (name : String) (j : Json) → SavesMap (save_mapping builtin name j)
  save_mapping-SavesMap name (obj mapping) =
      if-SavesMap (all_text mapping) _ _ (clean_saved-SavesMap name mapping [] (tt, tt)) (λ e. tt)
  save_mapping-SavesMap name null = tt
  save_mapping-SavesMap name (plain s) = tt
  save_mapping-SavesMap name (str s) = tt
  save_mapping-SavesMap name (arr js) = tt

  save_channel-SavesMap : (name : String) (j : Json) → SavesMap (save_channel builtin name j)
  save_channel-SavesMap name j =
      if-SavesMap (is_empty name) _ _ tt
        (λ e. if-SavesMap (not (is_known_channel name)) _ _ tt (λ f. save_mapping-SavesMap name j))

  save_channels-SavesAll :
      (payload : Fields) (stored : Stored)
      → IsStored stored
      → SavesAll (save_channels builtin payload stored)
  unfolding save_channels
  save_channels-SavesAll no_fields stored h = h
  save_channels-SavesAll (field channel mapping payload) stored h =
      go (save_channel builtin (strip channel) mapping)
        (save_channel-SavesMap (strip channel) mapping)
        (λ clean k.
          save_channels-SavesAll payload (put_entry (strip channel) clean stored)
            (put_entry-IsStored (strip channel) clean stored k h))
    where
      go :
          (r : Saving AliasMap)
          → SavesMap r
          → ((clean : AliasMap)
              → IsCleanMap clean
              → SavesAll (save_channels builtin payload (put_entry (strip channel) clean stored)))
          → SavesAll (elim r [
            | alias_error e ↦ alias_error e
            | saved clean ↦ save_channels builtin payload (put_entry (strip channel) clean stored)
          ])
      go (alias_error e) k rest = tt
      go (saved clean) k rest = rest clean k

put_clean-word :
    (k v : String) (out : AliasMap)
    → IsWord k
    → IsWord v
    → has_entry k out ≡ false
    → put_clean (strip k) (strip v) out ≡ out ++ (k, v) ∷ []
put_clean-word k v out wk wv h =
    ap (λ x. put_clean x (strip v) out) wk.0
    ∙ ap (λ y. put_clean k y out) wv.0
    ∙ rw (wk.1, wv.1) (put_entry-new k v out h)

-- A clean map is read back entry by entry.
clean_fields-alias_fields :
    (m out : AliasMap) → IsCleanMap m → Fresh out m → clean_fields (alias_fields m) out ≡ out ++ m
unfolding clean_fields
clean_fields-alias_fields [] out h f = sym (append-nil out)
clean_fields-alias_fields ((k, v) ∷ m) out ((new, rest), ((wk, wv), words)) f =
    ap (clean_fields (alias_fields m)) (put_clean-word k v out wk wv f.0)
    ∙ clean_fields-alias_fields m (out ++ (k, v) ∷ []) (rest, words) (Fresh-last k v out m f.1 new)
    ∙ append_assoc out ((k, v) ∷ []) m

load_channels-stored_fields :
    (stored out : Stored)
    → IsStored stored
    → Fresh out stored
    → load_channels (stored_fields stored) out ≡ out ++ stored
unfolding load_channels clean_map
load_channels-stored_fields [] out h f = sym (append-nil out)
load_channels-stored_fields ((channel, m) ∷ stored) out ((new, rest), (clean, cleans)) f =
    ap (λ c. load_channels (stored_fields stored) (put_entry channel c out))
      (clean_fields-alias_fields m [] clean (Fresh-nil m))
    ∙ ap (load_channels (stored_fields stored)) (put_entry-new channel m out f.0)
    ∙ load_channels-stored_fields stored (out ++ (channel, m) ∷ []) (rest, cleans)
        (Fresh-last channel m out stored f.1 new)
    ∙ append_assoc out ((channel, m) ∷ []) stored

load_stored :
    (stored : Stored)
    → IsStored stored
    → load_user_aliases (some (obj (stored_fields stored))) ≡ stored
unfolding load_user_aliases
load_stored [] h = refl
load_stored ((channel, m) ∷ stored) h =
    load_channels-stored_fields ((channel, m) ∷ stored) [] h (Fresh-nil ((channel, m) ∷ stored))

module _ (builtin : String → AliasMap) where
  -- What a save stores is what the next load reads, channel by channel and alias by alias in the same order, whatever the setting held before.
  pub save_user_aliases-load_user_aliases :
      (given : Json) (setting : Option Json) (stored : Stored)
      → save_user_aliases builtin given setting ≡ saved stored
      → load_user_aliases (some (obj (stored_fields stored))) ≡ stored
  unfolding save_user_aliases
  save_user_aliases-load_user_aliases (obj d) setting stored h = load_stored stored (
      subst SavesAll h (
        save_channels-SavesAll builtin (payload_of d) (load_user_aliases setting)
          (load_user_aliases-IsStored setting)))
  save_user_aliases-load_user_aliases null setting stored h = absurd (cc h)
  save_user_aliases-load_user_aliases (plain s) setting stored h = absurd (cc h)
  save_user_aliases-load_user_aliases (str s) setting stored h = absurd (cc h)
  save_user_aliases-load_user_aliases (arr js) setting stored h = absurd (cc h)
