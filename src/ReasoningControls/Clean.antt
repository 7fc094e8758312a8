-- ===== src/ReasoningControls/Clean.antt =====
-- reasoning_controls.py, `normalize_chat_reasoning`: a request that is clean, which a second cleaning leaves as it is.
use Prim.Native.String.{String}
use buddy2api.Prelude.{
  ◌≡◌, refl, sym, ap, ◌∙◌, Bool, true, false, inl, inr, Bool-cases, Option, none, some, str_eq,
  if◌then◌else◌, All, not, ◌&&◌,
}
use buddy2api.History.{Json, null, plain, str, arr, obj, Fields, no_fields, field, get}
use buddy2api.Responses.Reading.{has_key, assign}
use buddy2api.ReasoningControls.Normalized.{
  pop_key, remove_all, nested, put_remaining, is_there, value_or_null, with_summary,
  clean_reasoning, clean_thinking, clean_output, other_names, clean, set_effort,
}
use buddy2api.ReasoningControls.Keys.{
  get-remove_self, get-remove_other, get-assign_self, get-assign_other, remove_absent, assign_same,
  get-has_key,
}
use buddy2api.ReasoningControls.Cleaned.{
  remove_all-All, remove_all_absent, get-remove_all_other, as_object, left, nested-as_object,
  reasoning_keys, thinking_keys, clean_reasoning_self, clean_reasoning_other, clean_thinking_self,
  clean_thinking_other, get-put_remaining_self, get-put_remaining_other,
}

abbrev pub left_output : Option Json → Option Json
left_output (some (obj d)) =
    if has_key "effort" d then as_object (pop_key "effort" d) else some (obj d)
left_output j = j

clean_output_self :
    (j : Option Json) (body : Fields)
    → get "output_config" body ≡ j
    → get "output_config" (clean_output j body) ≡ left_output j
unfolding clean_output
clean_output_self none body h = h
clean_output_self (some null) body h = h
clean_output_self (some (plain s)) body h = h
clean_output_self (some (str s)) body h = h
clean_output_self (some (arr js)) body h = h
clean_output_self (some (obj d)) body h = branch (has_key "effort" d)
  where
    branch :
        (b : Bool)
        → get "output_config"
            (if b then put_remaining "output_config" (pop_key "effort" d) body else body)
          ≡ (if b then as_object (pop_key "effort" d) else some (obj d))
    branch true = get-put_remaining_self "output_config" (pop_key "effort" d) body
    branch false = h

clean_output_other :
    (k : String) (j : Option Json) (body : Fields)
    → str_eq k "output_config" ≡ false
    → get k (clean_output j body) ≡ get k body
unfolding clean_output
clean_output_other k none body h = refl
clean_output_other k (some null) body h = refl
clean_output_other k (some (plain s)) body h = refl
clean_output_other k (some (str s)) body h = refl
clean_output_other k (some (arr js)) body h = refl
clean_output_other k (some (obj d)) body h = branch (has_key "effort" d)
  where
    branch :
        (b : Bool)
        → get k (if b then put_remaining "output_config" (pop_key "effort" d) body else body)
          ≡ get k body
    branch true = get-put_remaining_other k "output_config" (pop_key "effort" d) body h
    branch false = refl

pub nested-left_output : (j : Option Json) → nested "effort" (left_output j) ≡ none
nested-left_output none = refl
nested-left_output (some null) = refl
nested-left_output (some (plain s)) = refl
nested-left_output (some (str s)) = refl
nested-left_output (some (arr js)) = refl
nested-left_output (some (obj d)) = elim (Bool-cases (has_key "effort" d)) [
  | inl t ↦ rw t (nested-as_object "effort" (pop_key "effort" d) ∙ get-remove_self "effort" d)
  | inr f ↦ rw f (get-has_key "effort" d f)
]

-- A request after the cleaning of another one.
pub record IsClean (p d : Fields) : Type 0 where
  pub reasoning : get "reasoning" d ≡ left reasoning_keys (get "reasoning" p)
  pub thinking : get "thinking" d ≡ left thinking_keys (get "thinking" p)
  pub output_config : get "output_config" d ≡ left_output (get "output_config" p)
  pub others : All (λ k. get k d ≡ none) other_names

pub clean-IsClean : (p : Fields) → IsClean p (clean p)
unfolding clean
clean-IsClean p =
    let a = clean_reasoning (get "reasoning" p) p in
    let b = clean_thinking (get "thinking" a) a in
    let c = clean_output (get "output_config" b) b in
    record {
      reasoning =
          get-remove_all_other "reasoning" other_names c refl
          ∙ clean_output_other "reasoning" (get "output_config" b) b refl
          ∙ clean_thinking_other "reasoning" (get "thinking" a) a refl
          ∙ clean_reasoning_self (get "reasoning" p) p refl;
      thinking =
          get-remove_all_other "thinking" other_names c refl
          ∙ clean_output_other "thinking" (get "output_config" b) b refl
          ∙ clean_thinking_self (get "thinking" a) a refl
          ∙ ap (left thinking_keys)
              (clean_reasoning_other "thinking" (get "reasoning" p) p refl refl);
      output_config =
          get-remove_all_other "output_config" other_names c refl
          ∙ clean_output_self (get "output_config" b) b refl
          ∙ ap left_output (
              clean_thinking_other "output_config" (get "thinking" a) a refl
              ∙ clean_reasoning_other "output_config" (get "reasoning" p) p refl refl);
      others = remove_all-All other_names c;
    }

set_effort_other :
    (k : String) (e : Option String) (d : Fields)
    → str_eq k "reasoning_effort" ≡ false
    → get k (set_effort e d) ≡ get k d
unfolding set_effort
set_effort_other k none d h = get-remove_other k "reasoning_effort" d h
set_effort_other k (some e) d h = get-assign_other k "reasoning_effort" (str e) d h

abbrev pub as_str : Option String → Option Json
as_str none = none
as_str (some s) = some (str s)

pub get-set_effort :
    (e : Option String) (d : Fields) → get "reasoning_effort" (set_effort e d) ≡ as_str e
unfolding set_effort
get-set_effort none d = get-remove_self "reasoning_effort" d
get-set_effort (some e) d = get-assign_self "reasoning_effort" (str e) d

pub set_effort_same :
    (e : Option String) (d : Fields) → get "reasoning_effort" d ≡ as_str e → set_effort e d ≡ d
unfolding set_effort
set_effort_same none d h = remove_absent "reasoning_effort" d h
set_effort_same (some e) d h = assign_same "reasoning_effort" (str e) d h

pub set_effort-IsClean :
    (e : Option String) (p d : Fields) → IsClean p d → IsClean p (set_effort e d)
set_effort-IsClean e p d c = record {
  reasoning = set_effort_other "reasoning" e d refl ∙ c.reasoning;
  thinking = set_effort_other "thinking" e d refl ∙ c.thinking;
  output_config = set_effort_other "output_config" e d refl ∙ c.output_config;
  others = (
    set_effort_other "reasoningEffort" e d refl ∙ c.others.0,
    (
      set_effort_other "enable_thinking" e d refl ∙ c.others.1.0,
      (
        set_effort_other "disable_reasoning" e d refl ∙ c.others.1.1.0,
        (set_effort_other "think" e d refl ∙ c.others.1.1.1.0, tt),
      ),
    ),
  );
}

-- The steps of a second cleaning.
again_reasoning :
    (keys_left : Fields) (body : Fields)
    → All (λ k. get k keys_left ≡ none) reasoning_keys
    → get "reasoning" body ≡ as_object keys_left
    → clean_reasoning (as_object keys_left) body ≡ body
unfolding clean_reasoning
again_reasoning no_fields body h e = refl
again_reasoning (field k j d) body h e =
    ap (λ r. put_remaining "reasoning" r (with_summary (field k j d) body))
      (remove_all_absent reasoning_keys (field k j d) h)
    ∙ ap
        (λ s. assign "reasoning" (obj (field k j d)) (
          if is_there s && not (has_key "reasoning_summary" body)
          then assign "reasoning_summary" (value_or_null s) body
          else body))
        h.1.1.0
    ∙ assign_same "reasoning" (obj (field k j d)) body e

again_thinking :
    (keys_left : Fields) (body : Fields)
    → All (λ k. get k keys_left ≡ none) thinking_keys
    → get "thinking" body ≡ as_object keys_left
    → clean_thinking (as_object keys_left) body ≡ body
unfolding clean_thinking
again_thinking no_fields body h e = refl
again_thinking (field k j d) body h e =
    ap (λ r. put_remaining "thinking" r body) (remove_all_absent thinking_keys (field k j d) h)
    ∙ assign_same "thinking" (obj (field k j d)) body e

of_left_reasoning :
    (j : Option Json) (body : Fields)
    → get "reasoning" body ≡ left reasoning_keys j
    → clean_reasoning (left reasoning_keys j) body ≡ body
of_left_reasoning none body h = again_reasoning no_fields body (refl, (refl, (refl, tt))) h
of_left_reasoning (some null) body h = again_reasoning no_fields body (refl, (refl, (refl, tt))) h
of_left_reasoning (some (plain s)) body h =
    again_reasoning no_fields body (refl, (refl, (refl, tt))) h
of_left_reasoning (some (str s)) body h =
    again_reasoning no_fields body (refl, (refl, (refl, tt))) h
of_left_reasoning (some (arr s)) body h =
    again_reasoning no_fields body (refl, (refl, (refl, tt))) h
of_left_reasoning (some (obj d)) body h =
    again_reasoning (remove_all reasoning_keys d) body (remove_all-All reasoning_keys d) h

of_left_thinking :
    (j : Option Json) (body : Fields)
    → get "thinking" body ≡ left thinking_keys j
    → clean_thinking (left thinking_keys j) body ≡ body
of_left_thinking none body h = again_thinking no_fields body (refl, (refl, tt)) h
of_left_thinking (some null) body h = again_thinking no_fields body (refl, (refl, tt)) h
of_left_thinking (some (plain s)) body h = again_thinking no_fields body (refl, (refl, tt)) h
of_left_thinking (some (str s)) body h = again_thinking no_fields body (refl, (refl, tt)) h
of_left_thinking (some (arr s)) body h = again_thinking no_fields body (refl, (refl, tt)) h
of_left_thinking (some (obj d)) body h =
    again_thinking (remove_all thinking_keys d) body (remove_all-All thinking_keys d) h

has_key-get : (k : String) (d : Fields) → get k d ≡ none → has_key k d ≡ false
has_key-get k no_fields h = refl
has_key-get k (field l j d) h = elim (Bool-cases (str_eq l k)) [
  | inl t ↦ absurd (cc (sym (ap (λ b. if b then some j else get k d) t) ∙ h))
  | inr f ↦ rw f (has_key-get k d (sym (ap (λ b. if b then some j else get k d) f) ∙ h))
]

again_output : (d body : Fields) → get "effort" d ≡ none → clean_output (as_object d) body ≡ body
unfolding clean_output
again_output no_fields body h = refl
again_output (field k j d) body h = rw (has_key-get "effort" (field k j d) h) refl

of_left_output : (j : Option Json) (body : Fields) → clean_output (left_output j) body ≡ body
unfolding clean_output
of_left_output none body = refl
of_left_output (some null) body = refl
of_left_output (some (plain s)) body = refl
of_left_output (some (str s)) body = refl
of_left_output (some (arr s)) body = refl
of_left_output (some (obj d)) body = branch (has_key "effort" d) refl
  where
    branch :
        (b : Bool)
        → has_key "effort" d ≡ b
        → clean_output (if b then as_object (pop_key "effort" d) else some (obj d)) body ≡ body
    branch true e = again_output (pop_key "effort" d) body (get-remove_self "effort" d)
    branch false e = rw e refl

-- A clean request stays as it is.
pub IsClean-clean : (p d : Fields) → IsClean p d → clean d ≡ d
unfolding clean
IsClean-clean p d c =
    ap
      (λ a.
        remove_all other_names
          (let b = clean_thinking (get "thinking" a) a in clean_output (get "output_config" b) b))
      (ap (λ j. clean_reasoning j d) c.reasoning
        ∙ of_left_reasoning (get "reasoning" p) d c.reasoning)
    ∙ ap (λ b. remove_all other_names (clean_output (get "output_config" b) b))
        (ap (λ j. clean_thinking j d) c.thinking ∙ of_left_thinking (get "thinking" p) d c.thinking)
    ∙ ap (λ x. remove_all other_names x)
        (ap (λ j. clean_output j d) c.output_config ∙ of_left_output (get "output_config" p) d)
    ∙ remove_all_absent other_names d c.others
