-- ===== src/Aliases/Tests.antt =====
-- A save of two channels, and what is read after it.
use buddy2api.Prelude.{◌≡◌, refl, none, some, [], ◌∷◌, String}
use buddy2api.Prelude.Texts.{strip}
use buddy2api.History.{Json, str, obj, no_fields, field, first_of}
use buddy2api.ContextBudget.Rejection.{starts_with}
use buddy2api.Aliases.{
  AliasMap, Stored, saved, alias_error, save_user_aliases, load_user_aliases, resolve,
  stored_fields, or_same, find_entry, user_aliases_for,
}
use buddy2api.Aliases.Resolved.{resolve-first_of}
use buddy2api.Aliases.Stored.{save_user_aliases-load_user_aliases}

abbrev builtin : String → AliasMap
builtin channel = ("auto", "m") ∷ []

abbrev given_json : Json
given_json = obj (
    field "qoder" (obj (field " fast " (str "q1") (field "auto" (str "q2") no_fields)))
      (field "loomy" (obj (field "big" (str " l1 ") no_fields)) no_fields))

abbrev stored : Stored
stored = ("qoder", ("fast", "q1") ∷ []) ∷ ("loomy", ("big", "l1") ∷ []) ∷ []

given_saves : save_user_aliases builtin given_json none ≡ saved stored
unfolding save_user_aliases strip starts_with
given_saves = refl

save_user_aliases-load_user_aliases_example :
    load_user_aliases (some (obj (stored_fields stored))) ≡ stored
save_user_aliases-load_user_aliases_example =
    save_user_aliases-load_user_aliases builtin given_json none stored given_saves

resolves_alias : resolve builtin "qoder" " fast" (some (obj (stored_fields stored))) ≡ "q1"
unfolding resolve strip
resolves_alias = refl

keeps_channels_apart : resolve builtin "loomy" "fast" (some (obj (stored_fields stored))) ≡ "fast"
unfolding resolve strip
keeps_channels_apart = refl

refuses_slash :
    save_user_aliases builtin (obj (field "a/b" (str "m") no_fields)) none
    ≡ alias_error "alias must not contain '/'"
unfolding save_user_aliases strip starts_with
refuses_slash = refl

resolve-first_of_example :
    resolve builtin "qoder" " fast" (some (obj (stored_fields stored)))
    ≡ or_same
        (first_of
          (find_entry
            (strip " fast")
            (user_aliases_for "qoder" (some (obj (stored_fields stored)))))
          (find_entry (strip " fast") (builtin "qoder")))
        (strip " fast")
unfolding strip
resolve-first_of_example =
    resolve-first_of builtin "qoder" " fast" (some (obj (stored_fields stored)))
