-- ===== src/Router/Agreement.antt =====
-- router.py: the admission check and the queue read a name the same way.
use buddy2api.Prelude.{
  ◌≡◌, refl, sym, subst, Bool, true, false, ◌&&◌, Option, none, some, [], ◌∷◌, String, str_eq_iff,
  inl, arith, if◌then◌else◌,
}
use buddy2api.Prelude.Member.{In}
use buddy2api.Prelude.Texts.{is_empty}
use buddy2api.Providers.Enabled.{IsEnabledList}
use buddy2api.Routing.{Account}
use buddy2api.Router.{
  ApiKey, Gateway, channel_order, namespaced, channel_accepts, pinned_channel, model_allowed,
  visible_channels, key_channel, key_allows_any,
}
use buddy2api.Router.Admission.{admitted, admit_text}
use buddy2api.Router.Admitted.{Matches, admit_text-MayServe}
use buddy2api.Router.Queue.{fits, split_name, account_queue}
use buddy2api.Router.Queued.{IsQueued, In-account_queue}

module _ (g : Gateway) (key : Option ApiKey) where
  -- A channel of the order that the key is not kept from is one that it sees.
  seen :
      (c : String)
      → In c (channel_order g)
      → fits (pinned_channel key) c ≡ true
      → In c (visible_channels g key)
  unfolding pinned_channel visible_channels
  seen c i h = seen_by key h
    where
      seen_under :
          (b : Bool) (d : String)
          → fits (if b then none else some d) c ≡ true
          → In c (if b then channel_order g else d ∷ [])
      seen_under true d e = i
      seen_under false d e = inl (sym ((str_eq_iff c d).0 e))

      seen_by : (k : Option ApiKey) → fits (pinned_channel k) c ≡ true → In c (visible_channels g k)
      seen_by none e = i
      seen_by (some k) e = seen_under (key_allows_any (key_channel k)) (key_channel k) e

  both : (a b : Bool) → a && b ≡ true → (a ≡ true) × (b ≡ true)
  both a b h = ground arith

  matched :
      (prefix : Option String) (base c : String)
      → is_empty base ≡ false
      → fits prefix c ≡ true
      → Matches prefix base c
  matched none base c h e = tt
  matched (some p) base c h e = (sym ((str_eq_iff c p).0 e), h)

  named : (name : String) → is_empty name ≡ false → split_name (some name) ≡ some (namespaced name)
  named name h = rw h refl

  -- Where the queue for a name is not empty, the admission check lets the same name through, for a name that is not empty nor
  -- ends after its prefix: a refused request has no account to spend.
  pub account_queue-admit_text :
      (name c : String) (a : Account)
      → IsEnabledList g.ids
      → is_empty name ≡ false
      → is_empty (namespaced name).1 ≡ false
      → In (c, a) (account_queue g key (some name))
      → admit_text g key name ≡ admitted (namespaced name).1
  account_queue-admit_text name c a usable full inner i =
      let queued =
        subst (λ s. IsQueued g key s c a) (named name full)
          ((In-account_queue g key (some name) c a).0 i) in
      let (there, locked, serves, has) = queued.0 in
      let prefix = (namespaced name).0 in
      let base = (namespaced name).1 in
      let (fit, rest) =
        both (fits prefix c) (channel_accepts g c base && model_allowed g key c base) serves in
      let (accepts, allows) = both (channel_accepts g c base) (model_allowed g key c base) rest in
      (admit_text-MayServe g key name base usable).1
        (refl, (c, there, (seen c there locked, accepts, allows), matched prefix base c inner fit))
