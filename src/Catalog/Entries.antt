-- ===== src/Catalog/Entries.antt =====
-- catalog.py, `set_exempt`: an entry of a dict that is written or popped, and a list that one model is filtered out of.
use buddy2api.Prelude.{
  ◌≡◌, refl, ap, ◌∙◌, inl, inr, Bool-cases, Bool, true, false, not, ◌&&◌, ◌||◌, none, some, List,
  [], ◌∷◌, String, str_eq, str_eq_iff, if◌then◌else◌, arith,
}
use buddy2api.Prelude.Texts.{str_in, str_in_iff, str_eq_self}
use buddy2api.Prelude.Member.{In-sort_on, In-sort_on_of}
use buddy2api.Prelude.Sort.{sort_on}
use buddy2api.Prelude.TextOrder.{text_order}
use buddy2api.History.{Json, Fields, no_fields, field, get}
use buddy2api.ToolHistory.{put}
use buddy2api.Catalog.{all_but, pop_channel}

-- The fields of a dict that one key is written in, or taken from.
pub get-put_self : (k : String) (v : Json) (d : Fields) → get k (put k v d) ≡ some v
get-put_self k v no_fields = rw (str_eq_self k) refl
get-put_self k v (field j w d) = elim (Bool-cases (str_eq j k)) [
  | inl t ↦ rw (t, t) refl
  | inr f ↦ rw (f, f) (get-put_self k v d)
]

pub get-put_other :
    (k i : String) (v : Json) (d : Fields) → str_eq k i ≡ false → get i (put k v d) ≡ get i d
get-put_other k i v no_fields h = rw h refl
get-put_other k i v (field j w d) h = elim (Bool-cases (str_eq j k)) [
  | inl t ↦
      let f : str_eq j i ≡ false = ap (λ s. str_eq s i) ((str_eq_iff j k).0 t) ∙ h in rw (t, f) refl
  | inr f ↦ rw (f, get-put_other k i v d h) refl
]

pub get-pop_self : (k : String) (d : Fields) → get k (pop_channel k d) ≡ none
get-pop_self k no_fields = refl
get-pop_self k (field j w d) = elim (Bool-cases (str_eq j k)) [
  | inl t ↦ rw t (get-pop_self k d)
  | inr f ↦ rw (f, f) (get-pop_self k d)
]

pub get-pop_other :
    (k i : String) (d : Fields) → str_eq k i ≡ false → get i (pop_channel k d) ≡ get i d
get-pop_other k i no_fields h = refl
get-pop_other k i (field j w d) h = elim (Bool-cases (str_eq j k)) [
  | inl t ↦
      let f : str_eq j i ≡ false = ap (λ s. str_eq s i) ((str_eq_iff j k).0 t) ∙ h in
      rw (t, f) (get-pop_other k i d h)
  | inr f ↦ rw (f, get-pop_other k i d h) refl
]

-- A list of models after one is filtered out and perhaps appended again.
same_bool : (b c : Bool) → (b ≡ true → c ≡ true) → (c ≡ true → b ≡ true) → b ≡ c
same_bool b c h k = ground arith

pub str_in-sort_on :
    (x : String) (ids : List String) → str_in x (sort_on text_order (λ s. s) ids) ≡ str_in x ids
str_in-sort_on x ids =
    let sorted = sort_on text_order (λ s. s) ids in
    same_bool (str_in x sorted) (str_in x ids)
      (λ h. (str_in_iff x ids).1 (In-sort_on text_order (λ s. s) x ids ((str_in_iff x sorted).0 h)))
      (λ h.
        (str_in_iff x sorted).1 (In-sort_on_of text_order (λ s. s) x ids ((str_in_iff x ids).0 h)))

left_out : (a b c r : Bool) → a ≡ c → r ≡ (b && not c) → r ≡ ((a || b) && not c)
left_out a b c r h k = ground arith

left_in :
    (a b c r : Bool) → (a ≡ true → c ≡ false) → r ≡ (b && not c) → (a || r) ≡ ((a || b) && not c)
left_in a b c r h k = ground arith

pub str_in-all_but :
    (x mid : String) (ids : List String)
    → str_in x (all_but mid ids) ≡ (str_in x ids && not (str_eq x mid))
str_in-all_but x mid [] = refl
str_in-all_but x mid (id ∷ ids) =
    let rest = str_in-all_but x mid ids in
    elim (Bool-cases (str_eq id mid)) [
      | inl t ↦ rw t (
          left_out (str_eq x id) (str_in x ids) (str_eq x mid) (str_in x (all_but mid ids))
            (ap (str_eq x) ((str_eq_iff id mid).0 t)) rest)
      | inr f ↦ rw f (
          left_in (str_eq x id) (str_in x ids) (str_eq x mid) (str_in x (all_but mid ids))
            (λ e. ap (λ s. str_eq s mid) ((str_eq_iff x id).0 e) ∙ f) rest)
    ]

pub marked_or_old :
    (a b c : Bool) (exempt : Bool)
    → c ≡ (exempt && a)
    → ((b && not a) || c) ≡ (if a then exempt else b)
marked_or_old a b c exempt h = ground arith

pub str_in-one :
    (x mid : String) (exempt : Bool)
    → str_in x (if exempt then mid ∷ [] else []) ≡ (exempt && str_eq x mid)
str_in-one x mid true = ground arith
str_in-one x mid false = refl
