-- ===== src/Providers/Enabled.antt =====
-- providers/__init__.py, `_parse_enabled`: what every accepted list satisfies.
use buddy2api.Prelude.{
  ◌≡◌, ◌≢◌, refl, subst, sym, ap, ◌∙◌, Bool, true, false, not, ◌||◌, List, [], ◌∷◌, ◌++◌, map,
  String, str_eq, if◌then◌else◌, Bool-cases, All, All-append, inl, inr, arith,
}
use buddy2api.Prelude.Member.{keep, In-keep, All-of_In}
use buddy2api.Prelude.Texts.{strip, split, is_empty, str_in, Nodup, Nodup-append_new}
use buddy2api.Providers.{
  default_provider_ids, is_known_channel, is_retired_channel, enabled, unknown, append_new,
  with_workbuddy, order_ids, or_default, parse_enabled,
}

-- A list of ids that the gateway may run with: workbuddy first, no id twice, every id known and none retired.
abbrev pub IsUsable : String → Type 0
IsUsable id = (is_known_channel id ≡ true) × (is_retired_channel id ≡ false)

abbrev pub StartsWith : String → List String → Type 0
StartsWith s [] = ⊥
StartsWith s (x ∷ xs) = x ≡ s

abbrev pub IsEnabledList : List String → Type 0
IsEnabledList ids = StartsWith "workbuddy" ids × Nodup ids × All IsUsable ids

StartsWith-append : (s : String) (xs ys : List String) → StartsWith s xs → StartsWith s (xs ++ ys)
StartsWith-append s [] ys h = absurd h
StartsWith-append s (x ∷ xs) ys h = h

grow :
    (ordered : List String) (item : String) (skip : Bool)
    → skip ≡ (str_eq item "workbuddy" || str_in item ordered)
    → IsEnabledList ordered
    → IsUsable item
    → IsEnabledList (if skip then ordered else ordered ++ item ∷ [])
grow ordered item true e h u = h
grow ordered item false e (first, once, usable) u = (
  StartsWith-append "workbuddy" ordered (item ∷ []) first,
  Nodup-append_new item ordered once (absent (str_eq item "workbuddy") (str_in item ordered) e),
  All-append IsUsable ordered (item ∷ []) usable (u, tt),
)
  where
    absent : (a b : Bool) → false ≡ (a || b) → b ≡ false
    absent a b h = ground arith

append_new-IsEnabledList :
    (parts ordered : List String)
    → IsEnabledList ordered
    → All IsUsable parts
    → IsEnabledList (append_new ordered parts)
unfolding append_new
append_new-IsEnabledList [] ordered h u = h
append_new-IsEnabledList (item ∷ parts) ordered h u =
    append_new-IsEnabledList parts _ (grow ordered item _ refl h u.0) u.1

workbuddy-IsUsable : IsUsable "workbuddy"
workbuddy-IsUsable = (refl, refl)

All-with_workbuddy :
    (parts : List String) → All IsUsable parts → All IsUsable (with_workbuddy parts)
All-with_workbuddy parts u = elim (Bool-cases (str_in "workbuddy" parts)) [
  | inl t ↦ rw t u
  | inr f ↦ rw f (workbuddy-IsUsable, u)
]

default_IsEnabledList : IsEnabledList default_provider_ids
default_IsEnabledList =
    let u : IsUsable "workbuddy" = (refl, refl) in
    (
      refl,
      (refl, (refl, (refl, (refl, (refl, (refl, (refl, (refl, tt)))))))),
      (u, (u, (u, (u, (u, (u, (u, (u, tt)))))))),
    )

negated : (b : Bool) → not b ≡ true → b ≡ false
negated b h = ground arith

enabled_inj : (a b : List String) → enabled a ≡ enabled b → a ≡ b
enabled_inj a b h = cc h

unknown≢enabled : (a b : List String) → unknown a ≢ enabled b
unknown≢enabled a b h = cc h

cons≢nil : (x : String) (xs : List String) → x ∷ xs ≢ []
cons≢nil x xs h = cc h

-- Where no id is unknown, the ids that are left are usable.
All-keep :
    (parts : List String)
    → keep (λ item. not (is_known_channel item)) parts ≡ []
    → All (λ item. is_known_channel item ≡ true) parts
All-keep [] h = tt
All-keep (item ∷ parts) h = elim (Bool-cases (is_known_channel item)) [
  | inl t ↦ (t, All-keep parts (rest item parts t h))
  | inr f ↦ absurd (
      cons≢nil item _ (
        sym (
          ap
            (λ b.
              if not b
              then item ∷ keep (λ i. not (is_known_channel i)) parts
              else keep (λ i. not (is_known_channel i)) parts)
            f)
        ∙ h))
]
  where
    rest :
        (item : String) (parts : List String)
        → is_known_channel item ≡ true
        → keep (λ i. not (is_known_channel i)) (item ∷ parts) ≡ []
        → keep (λ i. not (is_known_channel i)) parts ≡ []
    rest item parts t h =
        sym (
          ap
            (λ b.
              if not b
              then item ∷ keep (λ i. not (is_known_channel i)) parts
              else keep (λ i. not (is_known_channel i)) parts)
            t)
        ∙ h

usable :
    (parts : List String)
    → All (λ item. is_known_channel item ≡ true) parts
    → All (λ item. is_retired_channel item ≡ false) parts
    → All IsUsable parts
usable [] h k = tt
usable (item ∷ parts) h k = ((h.0, k.0), usable parts h.1 k.1)

module _ (ids : List String) where
  from_parts :
      (unknown_ids parts : List String)
      → keep (λ item. not (is_known_channel item)) parts ≡ unknown_ids
      → All (λ item. is_retired_channel item ≡ false) parts
      → order_ids unknown_ids parts ≡ enabled ids
      → IsEnabledList ids
  from_parts [] parts e k h = subst IsEnabledList (enabled_inj _ _ h) (
      append_new-IsEnabledList (with_workbuddy parts) ("workbuddy" ∷ [])
        (refl, (refl, tt), (workbuddy-IsUsable, tt))
        (All-with_workbuddy parts (usable parts (All-keep parts e) k)))
  from_parts (u ∷ us) parts e k h = absurd (unknown≢enabled _ _ h)

  from_list :
      (parts : List String)
      → All (λ item. is_retired_channel item ≡ false) parts
      → or_default parts ≡ enabled ids
      → IsEnabledList ids
  from_list [] k h = subst IsEnabledList (enabled_inj _ _ h) default_IsEnabledList
  from_list (p ∷ ps) k h = from_parts _ (p ∷ ps) refl k h

  -- An accepted setting, however it is written, gives a list with workbuddy first and no channel twice, of
  -- known channels none of which is retired.
  pub parse_enabled-IsEnabledList :
      (raw : String) → parse_enabled raw ≡ enabled ids → IsEnabledList ids
  unfolding parse_enabled
  parse_enabled-IsEnabledList raw h = elim (Bool-cases (is_empty (strip raw))) [
    | inl t ↦ from_list [] tt (sym (rw t refl) ∙ h)
    | inr f ↦
        let parts = keep (λ item. not (is_empty item)) (map strip (split "," (strip raw))) in
        from_list (keep (λ item. not (is_retired_channel item)) parts)
          (All-of_In _ _ (λ x i. negated _ (In-keep _ x parts i).1)) (sym (rw f refl) ∙ h)
  ]
