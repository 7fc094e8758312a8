-- ===== src/ContextBudget/Rejection.antt =====
-- context_budget.py, `is_context_rejection`: does an upstream's error say that the prompt is too long?
-- A code that is a list or an object never reads as one of the two codes.
use Prim.Native.Char.{code}
use Prim.Native.String.{String, [] as empty, ◌∷◌ as ◌◁◌, ◌++◌ as ◌+++◌}
use buddy2api.Prelude.{
  ℕ, zero, suc, Bool, true, false, ◌&&◌, ◌||◌, List, [], ◌∷◌, ◌++◌, str_eq, leb, ◌==◌,
}
use buddy2api.Prelude.Texts.{lstrip}
use buddy2api.History.{
  Json, null, plain, str, arr, obj, Items, no_items, item, Fields, no_fields, field,
}
use buddy2api.ContextBudget.{Builtins, huge_prompt_tokens}

abbrev pub is_code_key : String → Bool
is_code_key key = str_eq key "code" || (str_eq key "error_code" || str_eq key "errCode")

-- `str(item)` is the code
abbrev pub reads_as : String → Json → Bool
reads_as wanted (plain s) = str_eq s wanted
reads_as wanted (str s) = str_eq s wanted
reads_as wanted _ = false

-- `wanted in codes` for the codes that `_walk_codes` finds
unfoldable mutual
  pub has_code : String → Json → Bool
  has_code wanted (arr items) = items_have wanted items
  has_code wanted (obj fields) = fields_have wanted fields
  has_code wanted null = false
  has_code wanted (plain s) = false
  has_code wanted (str s) = false

  pub items_have : String → Items → Bool
  items_have wanted no_items = false
  items_have wanted (item j items) = has_code wanted j || items_have wanted items

  pub fields_have : String → Fields → Bool
  fields_have wanted no_fields = false
  fields_have wanted (field key j fields) =
      (is_code_key key && reads_as wanted j) || (has_code wanted j || fields_have wanted fields)

-- `_texts`
mutual
  pub texts : Json → List String
  texts (str s) = s ∷ []
  texts (arr items) = items_texts items
  texts (obj fields) = fields_texts fields
  texts null = []
  texts (plain s) = []

  pub items_texts : Items → List String
  items_texts no_items = []
  items_texts (item j items) = texts j ++ items_texts items

  pub fields_texts : Fields → List String
  fields_texts no_fields = []
  fields_texts (field key j fields) = texts j ++ fields_texts fields

-- `"\n".join(parts)`
unfoldable pub join_lines : List String → String
join_lines [] = empty
join_lines (s ∷ []) = s
join_lines (s ∷ t ∷ parts) = s +++ ("\n" ◁ join_lines (t ∷ parts))

unfoldable pub starts_with : String → String → Bool
starts_with empty s = true
starts_with (c ◁ word) empty = false
starts_with (c ◁ word) (d ◁ s) = (code c == code d) && starts_with word s

-- `word in text`
unfoldable pub contains : String → String → Bool
unfolding starts_with
contains word empty = starts_with word empty
contains word (c ◁ s) = starts_with word (c ◁ s) || contains word s

abbrev pub any_in : List String → String → Bool
any_in [] text = false
any_in (word ∷ words) text = contains word text || any_in words text

abbrev pub context_words : List String
context_words =
    "context length" ∷ "context window" ∷ "maximum context" ∷ "too long" ∷ "token limit"
    ∷ "context_length_exceeded" ∷ "上下文" ∷ "超出" ∷ "过长" ∷ []

-- `text[:n]`
abbrev pub prefix : ℕ → String → String
prefix zero s = empty
prefix (suc n) empty = empty
prefix (suc n) (c ◁ s) = c ◁ prefix n s

unfoldable pub looks_html : Builtins → String → Bool
unfolding contains lstrip
looks_html py text =
    let sample = py.lower (prefix 200 (lstrip text)) in
    starts_with "<" sample || (contains "<html" sample || contains "<!doctype" sample)

unfoldable pub is_context_rejection : Builtins → ℕ → Json → ℕ → Bool
unfolding join_lines contains looks_html
is_context_rejection py status detail prompt_tokens =
    let blob = join_lines (texts detail) in
    let huge = leb huge_prompt_tokens prompt_tokens in
    has_code "11115" detail
    || (any_in context_words (py.lower blob)
        || ((has_code "11133" detail && huge)
            || ((status == 502 || status == 503) && (looks_html py blob && huge))))

abbrev pub any_html : Builtins → List String → Bool
any_html py [] = false
any_html py (s ∷ parts) = looks_html py s || any_html py parts

unfoldable pub detail_html : Builtins → Json → Bool
unfolding looks_html
detail_html py detail = any_html py (texts detail)
