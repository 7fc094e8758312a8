-- ===== src/Catalog/Marked.antt =====
-- catalog.py, `set_exempt` and `is_exempt`: a mark is what the last call for the channel and the model left.
use Prim.Native.String.{[] as empty, ◌∷◌ as ◌◁◌, ◌++◌ as ◌+++◌}
use buddy2api.Prelude.{
  ◌≡◌, refl, sym, ap, ◌∙◌, subst, inl, inr, Bool-cases, Bool, true, false, not, ◌&&◌, ◌||◌,
  true≢false, Option, none, some, List, [], ◌∷◌, String, str_eq, str_eq_iff, if◌then◌else◌, All,
}
use buddy2api.Prelude.Texts.{strip, is_empty, str_in, str_in-append, str_eq_self}
use buddy2api.Prelude.Member.{In, In-append, In-keep, All-of_In, In-All, In-sort_on}
use buddy2api.Prelude.Sort.{sort_on}
use buddy2api.Prelude.TextOrder.{text_order}
use buddy2api.History.{Json, arr, obj, Items, no_items, item, Fields, get, is_truthy}
use buddy2api.Providers.{is_channel_enabled}
use buddy2api.Aliases.Stripped.{strip_twice}
use buddy2api.Catalog.{
  load_map, text_after, strip_rest, normalize_model_id, all_but, id_items, text_of, item_text,
  item_texts, listed_ids, exempt_models, is_exempt, new_marks, with_list, set_exempt, setting_after,
}
use buddy2api.Catalog.Entries.{
  get-put_self, get-pop_self, get-pop_other, get-put_other, str_in-sort_on, str_in-all_but,
  marked_or_old, str_in-one,
}

-- A text that `strip` leaves alone and that is not empty.
abbrev IsClean : String → Type 0
IsClean s = (is_empty s ≡ false) × (strip s ≡ s)

module _ (dump : Json → String) where
  item_texts-All : (items : Items) → All IsClean (item_texts dump items)
  unfolding item_texts
  item_texts-All no_items = tt
  item_texts-All (item j items) = elim (Bool-cases (is_empty (item_text dump j))) [
    | inl t ↦ rw t (item_texts-All items)
    | inr f ↦ rw f ((f, stripped (is_truthy (some j)) f), item_texts-All items)
  ]
    where
      stripped :
          (b : Bool)
          → is_empty (if b then strip (text_of dump j) else "") ≡ false
          → strip (if b then strip (text_of dump j) else "")
            ≡ (if b then strip (text_of dump j) else "")
      stripped true f = strip_twice (text_of dump j)
      stripped false f = absurd (true≢false f)

  listed_ids-All : (o : Option Json) → All IsClean (listed_ids dump o)
  listed_ids-All (some (arr items)) = item_texts-All items
  listed_ids-All _ = tt

  item_texts-id_items : (ids : List String) → All IsClean ids → item_texts dump (id_items ids) ≡ ids
  unfolding item_texts
  item_texts-id_items [] h = refl
  item_texts-id_items (empty ∷ ids) h = absurd (true≢false h.0.0)
  item_texts-id_items ((c ◁ s) ∷ ids) h =
      rw h.0.1 (ap (λ l. (c ◁ s) ∷ l) (item_texts-id_items ids h.1))

  sort_on-All :
      (ids : List String) → All IsClean ids → All IsClean (sort_on text_order (λ s. s) ids)
  sort_on-All ids h =
      All-of_In IsClean (sort_on text_order (λ s. s) ids)
        (λ x i. In-All IsClean x ids h (In-sort_on text_order (λ s. s) x ids i))

  marks-All :
      (name mid : String) (exempt : Bool) (setting : Option Json)
      → IsClean mid
      → All IsClean (new_marks dump name mid exempt setting)
  unfolding exempt_models
  marks-All name mid exempt setting h =
      let old = exempt_models dump name setting in
      All-of_In IsClean (new_marks dump name mid exempt setting) (λ x i.
        elim (In-append x (all_but mid old) (if exempt then mid ∷ [] else []) i) [
          | inl j ↦
              In-All IsClean x old (listed_ids-All (get name (load_map setting)))
                (In-keep (λ id. not (str_eq id mid)) x old j).0
          | inr j ↦ new exempt x j
        ])
    where
      new : (b : Bool) (x : String) → In x (if b then mid ∷ [] else []) → IsClean x
      new true x (inl e) = subst IsClean e h
      new true x (inr j) = absurd j
      new false x j = absurd j

  -- What is read back of the channel that is written, and of another one.
  exempt_models-with_list :
      (name : String) (ids : List String) (d : Fields)
      → All IsClean ids
      → exempt_models dump name (some (obj (with_list name ids d)))
        ≡ sort_on text_order (λ s. s) ids
  unfolding exempt_models sort_on
  exempt_models-with_list name [] d h = ap (listed_ids dump) (get-pop_self name d)
  exempt_models-with_list name (id ∷ ids) d h =
      let sorted = sort_on text_order (λ s. s) (id ∷ ids) in
      ap (listed_ids dump) (get-put_self name (arr (id_items sorted)) d)
      ∙ item_texts-id_items sorted (sort_on-All (id ∷ ids) h)

  exempt_models-other :
      (name c : String) (ids : List String) (d : Fields)
      → str_eq name c ≡ false
      → exempt_models dump c (some (obj (with_list name ids d))) ≡ listed_ids dump (get c d)
  unfolding exempt_models
  exempt_models-other name c [] d h = ap (listed_ids dump) (get-pop_other name c d h)
  exempt_models-other name c (id ∷ ids) d h =
      ap (listed_ids dump)
        (get-put_other name c (arr (id_items (sort_on text_order (λ s. s) (id ∷ ids)))) d h)

  str_in-marked :
      (x name mid : String) (exempt : Bool) (setting : Option Json) (d : Fields)
      → IsClean mid
      → str_in x (
          exempt_models dump name
            (some (obj (with_list name (new_marks dump name mid exempt setting) d))))
        ≡ (if str_eq x mid then exempt else str_in x (exempt_models dump name setting))
  str_in-marked x name mid exempt setting d h =
      let old = exempt_models dump name setting in
      let ids = new_marks dump name mid exempt setting in
      let last : List String = if exempt then mid ∷ [] else [] in
      ap (str_in x) (exempt_models-with_list name ids d (marks-All name mid exempt setting h))
      ∙ str_in-sort_on x ids
      ∙ str_in-append x (all_but mid old) last
      ∙ ap (λ b. b || str_in x last) (str_in-all_but x mid old)
      ∙ marked_or_old (str_eq x mid) (str_in x old) (str_in x last) exempt (str_in-one x mid exempt)

  -- The channel and the model are those of the call, however they are spelled.
  is_asked :
      (target name mid : String) (exempt : Bool) (setting : Option Json) (d : Fields)
      → IsClean mid
      → (not (is_empty target)
          && str_in target (
              exempt_models dump name
                (some (obj (with_list name (new_marks dump name mid exempt setting) d)))))
        ≡ (if str_eq target mid
            then exempt
            else not (is_empty target) && str_in target (exempt_models dump name setting))
  is_asked target name mid exempt setting d h = elim (Bool-cases (str_eq target mid)) [
    | inl t ↦
        rw
          (
            str_in-marked target name mid exempt setting d h,
            t,
            ap is_empty ((str_eq_iff target mid).0 t) ∙ h.0,
          )
          refl
    | inr f ↦ rw (str_in-marked target name mid exempt setting d h, f) refl
  ]

normalize_model_id_twice :
    (channel model_id : String)
    → strip (normalize_model_id channel model_id) ≡ normalize_model_id channel model_id
unfolding normalize_model_id
normalize_model_id_twice channel model_id = after (text_after (channel +++ "/") (strip model_id))
  where
    after :
        (o : Option String) → strip (strip_rest o (strip model_id)) ≡ strip_rest o (strip model_id)
    after none = strip_twice model_id
    after (some rest) = strip_twice rest

-- The call is not refused.
abbrev pub accepts : List String → String → String → Bool
accepts enabled channel model_id =
    not (is_empty (strip channel) || not (is_channel_enabled enabled (strip channel)))
    && not (is_empty (normalize_model_id (strip channel) model_id))

-- Another pair of a channel and a model names the same model on the same channel.
abbrev pub names_same : String → String → String → String → Bool
names_same channel model_id c m =
    str_eq (strip channel) c
    && str_eq (normalize_model_id c m) (normalize_model_id (strip channel) model_id)

-- After a call of set_exempt, a model is exempt on a channel exactly as the call says if the call was accepted and named that model on that channel, however both are spelled, and exactly as before for every other model and channel and when the call was refused.
pub set_exempt-is_exempt :
    (dump : Json → String) (enabled : List String) (channel model_id : String) (exempt : Bool)
    (setting : Option Json) (c m : String)
    → is_exempt dump c m
        (setting_after (set_exempt dump enabled channel model_id exempt setting) setting)
      ≡ (if accepts enabled channel model_id && names_same channel model_id c m
          then exempt
          else is_exempt dump c m setting)
unfolding set_exempt is_exempt
set_exempt-is_exempt dump enabled channel model_id exempt setting c m =
    let name = strip channel in
    let mid = normalize_model_id name model_id in
    let d = load_map setting in
    elim (Bool-cases (is_empty name || not (is_channel_enabled enabled name))) [
      | inl t ↦ rw t refl
      | inr f ↦ elim (Bool-cases (is_empty mid)) [
        | inl t ↦ rw (f, t) refl
        | inr g ↦ elim (Bool-cases (str_eq name c)) [
          | inl same ↦
              rw (f, g, sym ((str_eq_iff name c).0 same), str_eq_self name)
                (is_asked dump (normalize_model_id name m) name mid exempt setting d
                  (g, normalize_model_id_twice name model_id))
          | inr apart ↦
              rw
                (
                  f,
                  g,
                  apart,
                  exempt_models-other dump name c (new_marks dump name mid exempt setting) d apart,
                  exempt_models,
                )
                refl
        ]
      ]
    ]
