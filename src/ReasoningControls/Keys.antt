-- ===== src/ReasoningControls/Keys.antt =====
-- The laws of Python's dicts, as lists of fields: reading after `pop` and after an assignment, and what leaves a dict as it is.
use Prim.Native.String.{String}
use buddy2api.Prelude.{
  ◌≡◌, refl, sym, ap, ◌∙◌, true, false, true≢false, inl, inr, ◌||◌, Bool-cases, none, some, str_eq,
  str_eq_iff, if◌then◌else◌,
}
use buddy2api.Prelude.Texts.{str_eq_self, str_eq_sym}
use buddy2api.History.{Json, Fields, no_fields, field, get, set_field}
use buddy2api.Responses.Reading.{has_key, add_field, assign}
use buddy2api.ReasoningControls.Normalized.{pop_key}

pub get-remove_self : (key : String) (d : Fields) → get key (pop_key key d) ≡ none
get-remove_self key no_fields = refl
get-remove_self key (field k j d) = elim (Bool-cases (str_eq k key)) [
  | inl t ↦ rw t (get-remove_self key d)
  | inr f ↦ rw (f, f) (get-remove_self key d)
]

-- A key that is not the other one.
different :
    (k key other : String) → str_eq key other ≡ false → str_eq k other ≡ true → str_eq k key ≡ false
different k key other h t = elim (Bool-cases (str_eq k key)) [
  | inr f ↦ f
  | inl e ↦
      absurd (true≢false (sym (ap (λ x. str_eq x other) (sym ((str_eq_iff k key).0 e)) ∙ t) ∙ h))
]

pub get-remove_other :
    (key other : String) (d : Fields)
    → str_eq key other ≡ false
    → get key (pop_key other d) ≡ get key d
get-remove_other key other no_fields h = refl
get-remove_other key other (field k j d) h = elim (Bool-cases (str_eq k other)) [
  | inl t ↦ rw (t, different k key other h t) (get-remove_other key other d h)
  | inr f ↦ rw f (ap (λ o. if str_eq k key then some j else o) (get-remove_other key other d h))
]

pub get-has_key : (key : String) (d : Fields) → has_key key d ≡ false → get key d ≡ none
get-has_key key no_fields h = refl
get-has_key key (field k j d) h = elim (Bool-cases (str_eq k key)) [
  | inl t ↦ absurd (true≢false (sym (ap (λ b. b || has_key key d) t) ∙ h))
  | inr f ↦ rw f (get-has_key key d (sym (ap (λ b. b || has_key key d) f) ∙ h))
]

pub get-set_field_self :
    (key : String) (v : Json) (d : Fields)
    → has_key key d ≡ true
    → get key (set_field key v d) ≡ some v
get-set_field_self key v no_fields h = absurd (true≢false (sym h))
get-set_field_self key v (field k j d) h = elim (Bool-cases (str_eq k key)) [
  | inl t ↦ rw (t, t) refl
  | inr f ↦ rw (f, f) (get-set_field_self key v d (sym (ap (λ b. b || has_key key d) f) ∙ h))
]

get-add_field_self :
    (key : String) (v : Json) (d : Fields)
    → has_key key d ≡ false
    → get key (add_field key v d) ≡ some v
get-add_field_self key v no_fields h = rw (str_eq_self key) refl
get-add_field_self key v (field k j d) h = elim (Bool-cases (str_eq k key)) [
  | inl t ↦ absurd (true≢false (sym (ap (λ b. b || has_key key d) t) ∙ h))
  | inr f ↦ rw f (get-add_field_self key v d (sym (ap (λ b. b || has_key key d) f) ∙ h))
]

pub get-assign_self : (key : String) (v : Json) (d : Fields) → get key (assign key v d) ≡ some v
get-assign_self key v d = elim (Bool-cases (has_key key d)) [
  | inl t ↦ rw t (get-set_field_self key v d t)
  | inr f ↦ rw f (get-add_field_self key v d f)
]

get-set_field_other :
    (key other : String) (v : Json) (d : Fields)
    → str_eq key other ≡ false
    → get key (set_field other v d) ≡ get key d
get-set_field_other key other v no_fields h = refl
get-set_field_other key other v (field k j d) h = elim (Bool-cases (str_eq k other)) [
  | inl t ↦ rw (t, different k key other h t) refl
  | inr f ↦
      rw f (ap (λ o. if str_eq k key then some j else o) (get-set_field_other key other v d h))
]

reversed : (a b : String) → str_eq a b ≡ false → str_eq b a ≡ false
reversed a b h = str_eq_sym b a ∙ h

get-add_field_other :
    (key other : String) (v : Json) (d : Fields)
    → str_eq key other ≡ false
    → get key (add_field other v d) ≡ get key d
get-add_field_other key other v no_fields h = rw (reversed key other h) refl
get-add_field_other key other v (field k j d) h =
    ap (λ o. if str_eq k key then some j else o) (get-add_field_other key other v d h)

pub get-assign_other :
    (key other : String) (v : Json) (d : Fields)
    → str_eq key other ≡ false
    → get key (assign other v d) ≡ get key d
get-assign_other key other v d h = elim (Bool-cases (has_key other d)) [
  | inl t ↦ rw t (get-set_field_other key other v d h)
  | inr f ↦ rw f (get-add_field_other key other v d h)
]

-- What leaves a dict as it is.
pub remove_absent : (key : String) (d : Fields) → get key d ≡ none → pop_key key d ≡ d
remove_absent key no_fields h = refl
remove_absent key (field k j d) h = elim (Bool-cases (str_eq k key)) [
  | inl t ↦ absurd (cc (sym (ap (λ b. if b then some j else get key d) t) ∙ h))
  | inr f ↦ rw f (
      ap (λ r. field k j r)
        (remove_absent key d (sym (ap (λ b. if b then some j else get key d) f) ∙ h)))
]

set_field_same : (key : String) (v : Json) (d : Fields) → get key d ≡ some v → set_field key v d ≡ d
set_field_same key v no_fields h = refl
set_field_same key v (field k j d) h = elim (Bool-cases (str_eq k key)) [
  | inl t ↦
      rw t (ap (λ x. field k x d) (cc (sym (ap (λ b. if b then some j else get key d) t) ∙ h)))
  | inr f ↦ rw f (
      ap (λ r. field k j r)
        (set_field_same key v d (sym (ap (λ b. if b then some j else get key d) f) ∙ h)))
]

pub assign_same : (key : String) (v : Json) (d : Fields) → get key d ≡ some v → assign key v d ≡ d
assign_same key v d h = elim (Bool-cases (has_key key d)) [
  | inl t ↦ rw t (set_field_same key v d h)
  | inr f ↦ absurd (cc (sym h ∙ get-has_key key d f))
]
