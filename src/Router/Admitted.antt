-- ===== src/Router/Admitted.antt =====
-- router.py, `admit_model`: which names are admitted.
use buddy2api.Prelude.{
  ◌≡◌, refl, sym, ◌∙◌, subst, Bool, true, false, true≢false, not, ◌||◌, Option, none, some, List,
  [], ◌∷◌, String, if◌then◌else◌, inl, inr, ◌↔◌, arith,
}
use buddy2api.Prelude.Member.{In, In-keep, In-keep_of, In-All}
use buddy2api.Prelude.Texts.{is_empty, str_in, str_in_iff, Nodup, partition}
use buddy2api.Providers.{is_known_channel, is_retired_channel, is_channel_enabled}
use buddy2api.Providers.Enabled.{IsEnabledList}
use buddy2api.Router.{
  known_prefix, ApiKey, Gateway, Provider, provider_of, channel_order, namespaced, channel_accepts,
  pinned_channel, key_channel, key_allows_any, visible_channels, model_allowed, is_true,
}
use buddy2api.Router.ChannelOrder.{normalize_channel_order-Nodup}
use buddy2api.Router.Admission.{
  admitted, channel_retired, unknown_channel, is_none, is_off, channels_for_name, admit_prefixed,
  judge_bare, admit_bare, admit_split, admit_text,
}
use buddy2api.Router.Judge.{gate, judge_inv, judge_to}

-- A channel serves the name: the key may see it, its catalog has the id and the whitelist one of the spellings.
abbrev pub Serves : Gateway → Option ApiKey → String → String → Type 0
Serves g key base c =
    In c (visible_channels g key)
    × (channel_accepts g c base ≡ true)
    × (model_allowed g key c base ≡ true)

-- A namespaced name is for its own channel, and needs an inner id.
abbrev pub Matches : Option String → String → String → Type 0
Matches none base c = Unit
Matches (some prefix) base c = (prefix ≡ c) × (is_empty base ≡ false)

module _ (g : Gateway) (key : Option ApiKey) where
  in_order : (c : String) → Nodup g.ids → In c (channel_order g) ↔ In c g.ids
  unfolding channel_order
  in_order c once = (normalize_channel_order-Nodup g.ids g.order_setting once).1 c

  -- A channel that accepts something is on.
  accepts_on : (c name : String) → channel_accepts g c name ≡ true → is_off g c ≡ false
  unfolding channel_accepts
  accepts_on c name h = on (is_channel_enabled g.ids c) (g.loaded c) h
    where
      on :
          (b : Bool) (o : Option Provider)
          → (elim (if b then o else none) [
            | none ↦ false
            | some p ↦ is_true (p.accepts_model name)
          ])
            ≡ true
          → (not b || is_none (if b then o else none)) ≡ false
      on true (some p) k = refl
      on true none k = absurd (true≢false (sym k))
      on false o k = absurd (true≢false (sym k))

  off_enabled : (c : String) → is_off g c ≡ false → str_in c g.ids ≡ true
  off_enabled c h = enabled_of (str_in c g.ids) (is_none (provider_of g c)) h
    where
      enabled_of : (a b : Bool) → (not a || b) ≡ false → a ≡ true
      enabled_of a b k = ground arith

  negated : (b : Bool) → not b ≡ false → b ≡ true
  negated b h = ground arith

  abbrev pub MayServe : Option String → String → Type 0
  MayServe prefix base =
      (c : String) × In c (channel_order g) × Serves g key base c × Matches prefix base c

  prefixed_inv :
      (name prefix base b : String)
      → Nodup g.ids
      → admit_prefixed g key name prefix base ≡ admitted b
      → (base ≡ b) × MayServe (some prefix) base
  prefixed_inv name prefix base b once h =
      let (retired, h1) = gate _ _ _ b h in
      let (on, h2) = gate _ _ _ b h1 in
      let (seen, h3) = gate _ _ _ b h2 in
      let (full, h4) = gate _ _ _ b h3 in
      let (accepted, h5) = gate _ _ _ b h4 in
      let (e, d, i, k) = judge_inv g key name base b (prefix ∷ []) h5 in
      (
        e,
        (
          prefix,
          (in_order prefix once).1 ((str_in_iff prefix g.ids).0 (off_enabled prefix on)),
          (
            (str_in_iff prefix (visible_channels g key)).0 (negated _ seen),
            negated _ accepted,
            subst (λ c. model_allowed g key c base ≡ true) (only i) k,
          ),
          (refl, full),
        ),
      )
    where
      only : {d : String} → In d (prefix ∷ []) → d ≡ prefix
      only (inl p) = sym p
      only (inr p) = absurd p

  prefixed_to :
      (name prefix base : String)
      → is_retired_channel prefix ≡ false
      → MayServe (some prefix) base
      → admit_prefixed g key name prefix base ≡ admitted base
  prefixed_to name prefix base fresh (c, i, (seen, accepted, allowed), (e, full)) =
      let accepts : channel_accepts g prefix base ≡ true =
        subst (λ d. channel_accepts g d base ≡ true) (sym e) accepted in
      rw
        (
          fresh,
          accepts_on prefix base accepts,
          (str_in_iff prefix (visible_channels g key)).1
              (subst (λ d. In d (visible_channels g key)) (sym e) seen),
          full,
          accepts,
        )
        (judge_to g key name base prefix (prefix ∷ []) (inl refl)
          (subst (λ d. model_allowed g key d base ≡ true) (sym e) allowed))

  bare_inv :
      (name b : String) → judge_bare g key name ≡ admitted b → (name ≡ b) × MayServe none name
  unfolding channels_for_name
  bare_inv name b h =
      let (e, d, i, k) = judge_inv g key name name b _ h in
      let (j, seen) = In-keep (λ c. str_in c (visible_channels g key)) d _ i in
      let (l, accepted) = In-keep (λ c. channel_accepts g c name) d (channel_order g) j in
      (e, (d, l, ((str_in_iff d (visible_channels g key)).0 seen, accepted, k), tt))

  bare_to : (name : String) → MayServe none name → judge_bare g key name ≡ admitted name
  unfolding channels_for_name
  bare_to name (c, i, (seen, accepted, allowed), m) =
      judge_to g key name name c _
        (In-keep_of (λ d. str_in d (visible_channels g key)) c _
          (In-keep_of (λ d. channel_accepts g d name) c (channel_order g) i accepted)
          ((str_in_iff c (visible_channels g key)).1 seen))
        allowed

  fresh_id :
      (c : String) → IsEnabledList g.ids → In c (channel_order g) → is_retired_channel c ≡ false
  fresh_id c (first, once, usable) i = (In-All _ c g.ids usable ((in_order c once).0 i)).1

  -- A key that is bound to a channel sees that channel only.
  bound :
      (k : Option ApiKey) (p c : String)
      → pinned_channel k ≡ some p
      → In c (visible_channels g k)
      → p ≡ c
  unfolding pinned_channel visible_channels
  bound none p c h i = cc h
  bound (some k) p c h i =
      bound_to (key_allows_any (key_channel k)) (key_channel k) (channel_order g) h i
    where
      bound_to :
          (b : Bool) (d : String) (all : List String)
          → (if b then none else some d) ≡ some p
          → In c (if b then all else d ∷ [])
          → p ≡ c
      bound_to true d all e j = cc e
      bound_to false d all e (inl j) = cc (e, j)
      bound_to false d all e (inr j) = absurd j

  bare_pinned_inv :
      (pinned : Option String) (name b : String)
      → admit_bare g key name pinned ≡ admitted b
      → (name ≡ b) × MayServe none name
  bare_pinned_inv none name b h = bare_inv name b h
  bare_pinned_inv (some p) name b h =
      let (retired, h1) = gate (is_retired_channel p) (channel_retired p) _ b h in
      let (on, h2) = gate (is_off g p) (unknown_channel p) (judge_bare g key name) b h1 in
      bare_inv name b h2

  bare_pinned_to :
      (pinned : Option String) (name : String)
      → pinned_channel key ≡ pinned
      → IsEnabledList g.ids
      → MayServe none name
      → admit_bare g key name pinned ≡ admitted name
  bare_pinned_to none name e usable m = bare_to name m
  bare_pinned_to (some p) name e usable (c, i, (seen, accepted, allowed), m) =
      let same = bound key p c e seen in
      rw
        (
          subst (λ d. is_retired_channel d ≡ false) (sym same) (fresh_id c usable i),
          subst (λ d. is_off g d ≡ false) (sym same) (accepts_on c name accepted),
        )
        (bare_to name (c, i, (seen, accepted, allowed), m))

  split_iff :
      (name base : String) (prefix : Option String) (inner : String)
      → (prefix ≡ none → inner ≡ name)
      → IsEnabledList g.ids
      → (admit_split g key name (prefix, inner) ≡ admitted base)
        ↔ ((inner ≡ base) × MayServe prefix base)
  split_iff name base none inner whole usable = (
    λ h.
        let (e, m) = bare_pinned_inv (pinned_channel key) name base h in
        (whole refl ∙ e, subst (MayServe none) e m),
    λ (e, m).
        let same = sym (whole refl) ∙ e in
        subst (λ b. admit_split g key name (none, inner) ≡ admitted b) same
          (bare_pinned_to (pinned_channel key) name refl usable
            (subst (MayServe none) (sym same) m)),
  )
  split_iff name base (some prefix) inner whole usable = (
    λ h.
        let (e, m) = prefixed_inv name prefix inner base usable.1 h in
        (e, subst (MayServe (some prefix)) e m),
    λ (e, m).
        subst (λ b. admit_split g key name (some prefix, b) ≡ admitted base) (sym e)
          (prefixed_to name prefix base
            (subst (λ d. is_retired_channel d ≡ false) (sym (m.3).0) (fresh_id m.0 usable m.1)) m),
  )

  whole_name : (name : String) → (namespaced name).0 ≡ none → (namespaced name).1 ≡ name
  unfolding namespaced
  whole_name name h = whole (partition "/" name) h
    where
      unknown_prefix :
          (b : Bool) (first rest : String)
          → let r : Option String × String = if b then (some first, rest) else (none, name) in
            r.0 ≡ none → r.1 ≡ name
      unknown_prefix true first rest e = cc e
      unknown_prefix false first rest e = refl

      whole :
          (o : Option (String × String))
          → (known_prefix name o).0 ≡ none
          → (known_prefix name o).1 ≡ name
      whole none e = refl
      whole (some (first, rest)) e = unknown_prefix (is_known_channel first) first rest e

  -- With a list of enabled channels as the deployment accepts it, a name is admitted with the id `base` exactly when `base` is what
  -- follows a known channel's prefix, or the whole name without one, and some channel of the order serves it for this key:
  -- visible to the key, with the id in its catalog, allowed by the whitelist, and the prefix's own channel where there is one.
  pub admit_text-MayServe :
      (name base : String)
      → IsEnabledList g.ids
      → (admit_text g key name ≡ admitted base)
        ↔ (((namespaced name).1 ≡ base) × MayServe (namespaced name).0 base)
  unfolding admit_text
  admit_text-MayServe name base usable =
      split_iff name base (namespaced name).0 (namespaced name).1 (whole_name name) usable
