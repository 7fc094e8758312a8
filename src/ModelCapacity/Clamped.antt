-- ===== src/ModelCapacity/Clamped.antt =====
-- model_capacity.py, `clamp_output_tokens`: the output that is asked for stays within the catalog's limit.
use buddy2api.Prelude.{
  ℕ, ◌≡◌, refl, subst, sym, ap, ◌∙◌, true, false, true≢false, Bool-cases, inl, inr, Option, none,
  some, String, str_eq, ltb, arith,
}
use buddy2api.Prelude.Int.{ℤ, pos}
use buddy2api.History.{Json, Fields, get, set_field}
use buddy2api.History.Kept.{get-set_field, get-set_other}
use buddy2api.ModelCapacity.{
  Numbers, int_at, is_int_above, clamp_key, clamp_to, capacity_fields, clamp_output_tokens,
}

module _ (py : Numbers) (reads : (n : ℕ) → py.as_int (py.of_nat n) ≡ some (pos n)) (limit : ℕ) where
  abbrev read : Option Json → Option ℤ
  read o = elim o [ none ↦ none | some j ↦ py.as_int j ]

  not_above_self : (n : ℕ) → ltb n n ≡ false
  not_above_self n = ground arith

  present :
      (key : String) (payload : Fields) (o : Option Json)
      → get key payload ≡ o
      → is_int_above limit (int_at py payload key) ≡ true
      → is_int_above limit (int_at py (set_field key (py.of_nat limit) payload) key) ≡ false
  present key payload none e h = absurd (
      true≢false
        (sym h ∙ ap (λ o. is_int_above limit (elim o [ none ↦ none | some j ↦ py.as_int j ])) e))
  present key payload (some j) e h =
      ap (λ o. is_int_above limit (read o)) (get-set_field key (py.of_nat limit) j payload e)
      ∙ ap (is_int_above limit) (reads limit)
      ∙ not_above_self limit

  clamped :
      (key : String) (payload : Fields)
      → is_int_above limit (int_at py (clamp_key py limit key payload) key) ≡ false
  clamped key payload = elim (Bool-cases (is_int_above limit (int_at py payload key))) [
    | inl t ↦ rw t (present key payload (get key payload) refl t)
    | inr f ↦ rw f f
  ]

  other_key :
      (key other : String) (payload : Fields)
      → str_eq key other ≡ false
      → int_at py (clamp_key py limit key payload) other ≡ int_at py payload other
  other_key key other payload h = elim (Bool-cases (is_int_above limit (int_at py payload key))) [
    | inl t ↦ rw t (
        ap (λ o. elim o [ none ↦ none | some j ↦ py.as_int j ])
          (get-set_other key other (py.of_nat limit) payload h))
    | inr f ↦ rw f refl
  ]

  abbrev pub IsWithin : Fields → Type 0
  IsWithin payload =
      (is_int_above limit (int_at py payload "max_tokens") ≡ false)
      × (is_int_above limit (int_at py payload "max_completion_tokens") ≡ false)

  -- Where the catalog has an output limit for the model, neither field of the payload that is sent holds an int above it, for numbers that read as what was written. A value of another type, such as a float, is not compared.
  pub clamp_output_tokens-IsWithin :
      (payload : Fields) (model : Option Json)
      → (capacity_fields py model).max_output_tokens ≡ some limit
      → IsWithin (clamp_output_tokens py payload model)
  unfolding clamp_output_tokens
  clamp_output_tokens-IsWithin payload model h =
      let first = clamp_key py limit "max_tokens" payload in
      subst (λ o. IsWithin (clamp_to py payload o)) (sym h)
        (
          ap (is_int_above limit) (other_key "max_completion_tokens" "max_tokens" first refl)
              ∙ clamped "max_tokens" payload,
          clamped "max_completion_tokens" first,
        )
