-- ===== src/ModelCapacity/Tests.antt =====
-- The cap of a request's output at a concrete row. A number is written as that many nulls.
use buddy2api.Prelude.{ℕ, zero, suc, ◌≡◌, refl, ap, Option, none, some}
use buddy2api.Prelude.Int.{ℤ, pos}
use buddy2api.History.{Json, null, str, arr, obj, Items, no_items, item, Fields, no_fields, field}
use buddy2api.ModelCapacity.{Numbers, first_positive, capacity_fields, clamp_output_tokens}
use buddy2api.ModelCapacity.Clamped.{IsWithin, clamp_output_tokens-IsWithin}

abbrev nulls : ℕ → Items
nulls zero = no_items
nulls (suc n) = item null (nulls n)

abbrev count : Items → ℕ
count no_items = 0
count (item j items) = suc (count items)

abbrev as_int : Json → Option ℤ
as_int (arr items) = some (pos (count items))
as_int _ = none

abbrev py : Numbers
py = record { as_int = as_int; of_nat = λ n. arr (nulls n) }

count-nulls : (n : ℕ) → count (nulls n) ≡ n
count-nulls zero = refl
count-nulls (suc n) = ap suc (count-nulls n)

reads : (n : ℕ) → as_int (arr (nulls n)) ≡ some (pos n)
reads n = ap (λ m. some (pos m)) (count-nulls n)

abbrev model : Option Json
model = some (obj (field "id" (str "m") (field "maxOutputTokens" (arr (nulls 2)) no_fields)))

abbrev payload : Fields
payload = field "max_tokens" (arr (nulls 5)) no_fields

clamped_payload :
    clamp_output_tokens py payload model ≡ field "max_tokens" (arr (nulls 2)) no_fields
unfolding clamp_output_tokens capacity_fields first_positive
clamped_payload = refl

capacity : (capacity_fields py model).max_output_tokens ≡ some 2
unfolding capacity_fields first_positive
capacity = refl

clamp_output_tokens-IsWithin_example : IsWithin py reads 2 (clamp_output_tokens py payload model)
clamp_output_tokens-IsWithin_example =
    clamp_output_tokens-IsWithin py reads 2 payload model capacity
