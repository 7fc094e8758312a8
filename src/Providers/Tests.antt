-- ===== src/Providers/Tests.antt =====
-- The setting of the enabled channels at concrete texts.
use buddy2api.Prelude.{◌≡◌, refl, List, [], ◌∷◌, String}
use buddy2api.Prelude.Texts.{strip, lstrip, rstrip, split}
use buddy2api.Providers.{enabled, unknown, append_new, default_provider_ids, parse_enabled}
use buddy2api.Providers.Enabled.{IsEnabledList, parse_enabled-IsEnabledList}

abbrev setting : String
setting = " loomy, qoder ,loomy,qclaw\t"

abbrev ids : List String
ids = "workbuddy" ∷ "loomy" ∷ "qoder" ∷ []

setting_ids : parse_enabled setting ≡ enabled ids
unfolding parse_enabled append_new strip lstrip rstrip split
setting_ids = refl

unknown_id : parse_enabled "loomy,foo" ≡ unknown ("foo" ∷ [])
unfolding parse_enabled append_new strip lstrip rstrip split
unknown_id = refl

blank : parse_enabled "  " ≡ enabled default_provider_ids
unfolding parse_enabled append_new strip lstrip rstrip split
blank = refl

parse_enabled-IsEnabledList_example : IsEnabledList ids
parse_enabled-IsEnabledList_example = parse_enabled-IsEnabledList ids setting setting_ids
