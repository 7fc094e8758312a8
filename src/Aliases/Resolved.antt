-- ===== src/Aliases/Resolved.antt =====
-- aliases.py, `resolve`: the aliases of the user over the built-in ones of the same channel.
use Prim.Native.String.{String}
use buddy2api.Prelude.{
  ◌≡◌, refl, sym, ap, ◌∙◌, subst, Bool, true, false, true≢false, ◌||◌, inl, inr, Bool-cases, Option,
  none, some, List, [], ◌∷◌, str_eq, str_eq_iff, if◌then◌else◌, All,
}
use buddy2api.Prelude.Texts.{strip, is_empty, str_eq_sym}
use buddy2api.History.{Json, first_of}
use buddy2api.Aliases.{
  has_entry, find_entry, put_entry, AliasMap, Stored, load_user_aliases, map_or_empty,
  user_aliases_for, merge, or_same, merged_map, resolve,
}
use buddy2api.Aliases.Dicts.{Distinct}
use buddy2api.Aliases.Stored.{IsCleanMap, load_user_aliases-IsStored}

module _ {A : Type 0} where
  find_entry-absent :
      (k : String) (m : List (String × A)) → has_entry k m ≡ false → find_entry k m ≡ none
  find_entry-absent k [] h = refl
  find_entry-absent k ((j, b) ∷ m) h = elim (Bool-cases (str_eq j k)) [
    | inl t ↦ absurd (true≢false (sym (ap (λ x. x || has_entry k m) t) ∙ h))
    | inr f ↦ rw f (find_entry-absent k m (sym (ap (λ x. x || has_entry k m) f) ∙ h))
  ]

  same_key :
      (b : Bool) (x y : A) (o : Option A)
      → (if b then some x else o) ≡ (if b then some x else (if b then some y else o))
  same_key true x y o = refl
  same_key false x y o = refl

  find_entry-put_entry :
      (k j : String) (a : A) (m : List (String × A))
      → find_entry k (put_entry j a m) ≡ (if str_eq j k then some a else find_entry k m)
  find_entry-put_entry k j a [] = refl
  find_entry-put_entry k j a ((i, b) ∷ m) = elim (Bool-cases (str_eq i j)) [
    | inl t ↦ rw t (
        same_key (str_eq i k) a b (find_entry k m)
        ∙ ap (λ x. if str_eq x k then some a else (if str_eq i k then some b else find_entry k m))
            ((str_eq_iff i j).0 t))
    | inr f ↦ rw f (elim (Bool-cases (str_eq i k)) [
      | inr n ↦ rw n (find_entry-put_entry k j a m)
      | inl y ↦
          let other : str_eq j k ≡ false =
            ap (str_eq j) (sym ((str_eq_iff i k).0 y)) ∙ str_eq_sym j i ∙ f in
          rw (y, other) refl
    ])
  ]

-- The user's entry goes first.
find_entry-merge :
    (k : String) (user out : AliasMap)
    → Distinct user
    → find_entry k (merge out user) ≡ first_of (find_entry k user) (find_entry k out)
find_entry-merge k [] out h = refl
find_entry-merge k ((j, v) ∷ user) out h =
    find_entry-merge k user (put_entry j v out) h.1
    ∙ ap (first_of (find_entry k user)) (find_entry-put_entry k j v out)
    ∙ elim (Bool-cases (str_eq j k)) [
      | inr f ↦ rw f refl
      | inl t ↦
          let absent : find_entry k user ≡ none =
            find_entry-absent k user
              (subst (λ x. has_entry x user ≡ false) ((str_eq_iff j k).0 t) h.0) in
          rw (t, absent) refl
    ]

map_of-Distinct :
    (channel : String) (stored : Stored)
    → All (λ (p : String × AliasMap). IsCleanMap p.1) stored
    → Distinct (map_or_empty (find_entry channel stored))
map_of-Distinct channel [] h = tt
map_of-Distinct channel ((c, m) ∷ stored) h = elim (Bool-cases (str_eq c channel)) [
  | inl t ↦ rw t h.0.0
  | inr f ↦ rw f (map_of-Distinct channel stored h.1)
]

resolved :
    (b : Bool) (value : String) (o p : Option String)
    → o ≡ p
    → (if b then value else or_same o value) ≡ (if b then value else or_same p value)
resolved b value o p h = ap (λ x. if b then value else or_same x value) h

-- A name is resolved, whatever the setting holds, to the user's target for it on that channel, else to the built-in one, else to itself without the spaces around it; an empty name stays empty.
pub resolve-first_of :
    (builtin : String → AliasMap) (channel model : String) (setting : Option Json)
    → let value = strip model in
      resolve builtin channel model setting ≡ (
        if is_empty value
        then value
        else or_same
            (first_of
              (find_entry value (user_aliases_for channel setting))
              (find_entry value (builtin channel)))
            value)
unfolding resolve merged_map
resolve-first_of builtin channel model setting =
    let value = strip model in
    let user = user_aliases_for channel setting in
    resolved (is_empty value) value _ _ (
      find_entry-merge value user (builtin channel) (
        map_of-Distinct channel (load_user_aliases setting) (load_user_aliases-IsStored setting).1))
