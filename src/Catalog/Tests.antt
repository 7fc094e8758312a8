-- ===== src/Catalog/Tests.antt =====
-- A mark that is set, and one that is read under another spelling.
use buddy2api.Prelude.{◌≡◌, refl, true, false, Option, some, List, [], ◌∷◌, String}
use buddy2api.Prelude.Texts.{strip}
use buddy2api.Prelude.Sort.{sort_on}
use buddy2api.History.{Json, arr, obj, str, no_items, item, no_fields, field}
use buddy2api.Catalog.{
  catalog_error, marked, normalize_model_id, item_texts, exempt_models, is_exempt, set_exempt,
  setting_after,
}
use buddy2api.Catalog.Marked.{set_exempt-is_exempt}

abbrev dump : Json → String
dump j = "[]"

abbrev enabled : List String
enabled = "qoder" ∷ "loomy" ∷ []

abbrev held : Option Json
held = some (obj (field "qoder" (arr (item (str " m2 ") (item (str "") no_items))) no_fields))

adds_mark :
    set_exempt dump enabled " qoder" "qoder/ m1" true held
    ≡ marked "qoder" "m1"
        (field "qoder" (arr (item (str "m1") (item (str "m2") no_items))) no_fields)
unfolding set_exempt strip normalize_model_id exempt_models item_texts sort_on
adds_mark = refl

removes_last : set_exempt dump enabled "qoder" "m2" false held ≡ marked "qoder" "m2" no_fields
unfolding set_exempt strip normalize_model_id exempt_models item_texts
removes_last = refl

refuses_channel :
    set_exempt dump enabled "other" "m2" false held ≡ catalog_error "unknown or disabled channel"
unfolding set_exempt strip normalize_model_id
refuses_channel = refl

refuses_empty :
    set_exempt dump enabled "qoder" "qoder/ " true held ≡ catalog_error "model id is required"
unfolding set_exempt strip normalize_model_id
refuses_empty = refl

set_exempt-is_exempt_example :
    is_exempt dump "qoder" "m1 "
      (setting_after (set_exempt dump enabled " qoder" "qoder/ m1" true held) held)
    ≡ true
unfolding is_exempt strip normalize_model_id
set_exempt-is_exempt_example =
    set_exempt-is_exempt dump enabled " qoder" "qoder/ m1" true held "qoder" "m1 "
