-- ===== src/ReasoningControls/Cleaned.antt =====
-- reasoning_controls.py, `normalize_chat_reasoning`: the fields of a request after it, by key.
use Prim.Native.String.{String}
use buddy2api.Prelude.{
  ◌≡◌, refl, ap, ◌∙◌, Bool, true, false, not, ◌&&◌, ◌||◌, arith, inl, inr, Bool-cases, Option, none,
  some, List, [], ◌∷◌, str_eq, str_eq_iff, if◌then◌else◌, All,
}
use buddy2api.Prelude.Texts.{str_in}
use buddy2api.History.{Json, null, plain, str, arr, obj, Fields, no_fields, field, get}
use buddy2api.Responses.Reading.{has_key, assign}
use buddy2api.ReasoningControls.Normalized.{
  pop_key, remove_all, nested, bare, put_remaining, is_there, value_or_null, with_summary,
  clean_reasoning, clean_thinking,
}
use buddy2api.ReasoningControls.Keys.{
  get-remove_self, get-remove_other, get-assign_self, get-assign_other, remove_absent,
}

absent-pop_key : (k key : String) (d : Fields) → get k d ≡ none → get k (pop_key key d) ≡ none
absent-pop_key k key d h = elim (Bool-cases (str_eq k key)) [
  | inl t ↦ rw ((str_eq_iff k key).0 t) (get-remove_self key d)
  | inr f ↦ get-remove_other k key d f ∙ h
]

absent-remove_all :
    (k : String) (keys : List String) (d : Fields)
    → get k d ≡ none
    → get k (remove_all keys d) ≡ none
absent-remove_all k [] d h = h
absent-remove_all k (key ∷ keys) d h =
    absent-remove_all k keys (pop_key key d) (absent-pop_key k key d h)

-- The keys that were removed are gone.
pub remove_all-All :
    (keys : List String) (d : Fields) → All (λ k. get k (remove_all keys d) ≡ none) keys
remove_all-All [] d = tt
remove_all-All (key ∷ keys) d = (
  absent-remove_all key keys (pop_key key d) (get-remove_self key d),
  remove_all-All keys (pop_key key d),
)

pub remove_all_absent :
    (keys : List String) (d : Fields) → All (λ k. get k d ≡ none) keys → remove_all keys d ≡ d
remove_all_absent [] d h = refl
remove_all_absent (key ∷ keys) d (h, rest) =
    ap (λ x. remove_all keys x) (remove_absent key d h) ∙ remove_all_absent keys d rest

or_both : (a b : Bool) → (a || b) ≡ false → (a ≡ false) × (b ≡ false)
or_both a b h = ground arith

pub get-remove_all_other :
    (k : String) (keys : List String) (d : Fields)
    → str_in k keys ≡ false
    → get k (remove_all keys d) ≡ get k d
get-remove_all_other k [] d h = refl
get-remove_all_other k (key ∷ keys) d h =
    let (f, rest) = or_both (str_eq k key) (str_in k keys) h in
    get-remove_all_other k keys (pop_key key d) rest ∙ get-remove_other k key d f

-- What is left of an object without some keys; nothing where it is empty or no object.
abbrev pub as_object : Fields → Option Json
as_object no_fields = none
as_object (field k j d) = some (obj (field k j d))

abbrev pub left : List String → Option Json → Option Json
left keys (some (obj d)) = as_object (remove_all keys d)
left keys _ = none

pub nested-as_object : (key : String) (d : Fields) → nested key (as_object d) ≡ get key d
nested-as_object key no_fields = refl
nested-as_object key (field k j d) = refl

pub bare-left : (keys : List String) (j : Option Json) → bare (left keys j) ≡ none
bare-left keys none = refl
bare-left keys (some null) = refl
bare-left keys (some (plain s)) = refl
bare-left keys (some (str s)) = refl
bare-left keys (some (arr js)) = refl
bare-left keys (some (obj d)) = of_fields (remove_all keys d)
  where
    of_fields : (f : Fields) → bare (as_object f) ≡ none
    of_fields no_fields = refl
    of_fields (field k i f) = refl

-- A key that is taken out is not there, and another one is as it was.
pub nested-left_out :
    (key : String) (keys : List String) (j : Option Json)
    → ((d : Fields) → get key (remove_all keys d) ≡ none)
    → nested key (left keys j) ≡ none
nested-left_out key keys none h = refl
nested-left_out key keys (some null) h = refl
nested-left_out key keys (some (plain s)) h = refl
nested-left_out key keys (some (str s)) h = refl
nested-left_out key keys (some (arr js)) h = refl
nested-left_out key keys (some (obj d)) h = nested-as_object key (remove_all keys d) ∙ h d

pub nested-left_in :
    (key : String) (keys : List String) (j : Option Json)
    → str_in key keys ≡ false
    → nested key (left keys j) ≡ nested key j
nested-left_in key keys none h = refl
nested-left_in key keys (some null) h = refl
nested-left_in key keys (some (plain s)) h = refl
nested-left_in key keys (some (str s)) h = refl
nested-left_in key keys (some (arr js)) h = refl
nested-left_in key keys (some (obj d)) h =
    nested-as_object key (remove_all keys d) ∙ get-remove_all_other key keys d h

pub get-put_remaining_self :
    (key : String) (rest body : Fields) → get key (put_remaining key rest body) ≡ as_object rest
get-put_remaining_self key no_fields body = get-remove_self key body
get-put_remaining_self key (field k j d) body = get-assign_self key (obj (field k j d)) body

pub get-put_remaining_other :
    (k key : String) (rest body : Fields)
    → str_eq k key ≡ false
    → get k (put_remaining key rest body) ≡ get k body
get-put_remaining_other k key no_fields body h = get-remove_other k key body h
get-put_remaining_other k key (field l j d) body h =
    get-assign_other k key (obj (field l j d)) body h

get-with_summary :
    (k : String) (d body : Fields)
    → str_eq k "reasoning_summary" ≡ false
    → get k (with_summary d body) ≡ get k body
get-with_summary k d body h =
    branch (is_there (get "summary" d) && not (has_key "reasoning_summary" body))
  where
    branch :
        (b : Bool)
        → get k
            (if b then assign "reasoning_summary" (value_or_null (get "summary" d)) body else body)
          ≡ get k body
    branch true = get-assign_other k "reasoning_summary" (value_or_null (get "summary" d)) body h
    branch false = refl

abbrev pub reasoning_keys : List String
reasoning_keys = "effort" ∷ "enabled" ∷ "summary" ∷ []

abbrev pub thinking_keys : List String
thinking_keys = "type" ∷ "effort" ∷ []

-- One cleaning step: the field itself, and the other ones.
pub clean_reasoning_self :
    (j : Option Json) (body : Fields)
    → get "reasoning" body ≡ j
    → get "reasoning" (clean_reasoning j body) ≡ left reasoning_keys j
unfolding clean_reasoning
clean_reasoning_self none body h = h
clean_reasoning_self (some null) body h = get-remove_self "reasoning" body
clean_reasoning_self (some (plain s)) body h = get-remove_self "reasoning" body
clean_reasoning_self (some (str s)) body h = get-remove_self "reasoning" body
clean_reasoning_self (some (arr js)) body h = get-remove_self "reasoning" body
clean_reasoning_self (some (obj d)) body h =
    get-put_remaining_self "reasoning" (remove_all reasoning_keys d) (with_summary d body)

pub clean_reasoning_other :
    (k : String) (j : Option Json) (body : Fields)
    → str_eq k "reasoning" ≡ false
    → str_eq k "reasoning_summary" ≡ false
    → get k (clean_reasoning j body) ≡ get k body
unfolding clean_reasoning
clean_reasoning_other k none body h g = refl
clean_reasoning_other k (some null) body h g = get-remove_other k "reasoning" body h
clean_reasoning_other k (some (plain s)) body h g = get-remove_other k "reasoning" body h
clean_reasoning_other k (some (str s)) body h g = get-remove_other k "reasoning" body h
clean_reasoning_other k (some (arr js)) body h g = get-remove_other k "reasoning" body h
clean_reasoning_other k (some (obj d)) body h g =
    get-put_remaining_other k "reasoning" (remove_all reasoning_keys d) (with_summary d body) h
    ∙ get-with_summary k d body g

pub clean_thinking_self :
    (j : Option Json) (body : Fields)
    → get "thinking" body ≡ j
    → get "thinking" (clean_thinking j body) ≡ left thinking_keys j
unfolding clean_thinking
clean_thinking_self none body h = h
clean_thinking_self (some null) body h = get-remove_self "thinking" body
clean_thinking_self (some (plain s)) body h = get-remove_self "thinking" body
clean_thinking_self (some (str s)) body h = get-remove_self "thinking" body
clean_thinking_self (some (arr js)) body h = get-remove_self "thinking" body
clean_thinking_self (some (obj d)) body h =
    get-put_remaining_self "thinking" (remove_all thinking_keys d) body

pub clean_thinking_other :
    (k : String) (j : Option Json) (body : Fields)
    → str_eq k "thinking" ≡ false
    → get k (clean_thinking j body) ≡ get k body
unfolding clean_thinking
clean_thinking_other k none body h = refl
clean_thinking_other k (some null) body h = get-remove_other k "thinking" body h
clean_thinking_other k (some (plain s)) body h = get-remove_other k "thinking" body h
clean_thinking_other k (some (str s)) body h = get-remove_other k "thinking" body h
clean_thinking_other k (some (arr js)) body h = get-remove_other k "thinking" body h
clean_thinking_other k (some (obj d)) body h =
    get-put_remaining_other k "thinking" (remove_all thinking_keys d) body h
