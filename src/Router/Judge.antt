-- ===== src/Router/Judge.antt =====
-- router.py, `admit_model`: its guards and its last two checks, read backwards and forwards.
use buddy2api.Prelude.{
  ◌≡◌, ◌≢◌, refl, sym, ap, ◌∙◌, Bool, true, false, true≢false, ◌||◌, Option, List, [], ◌∷◌, String,
  if◌then◌else◌, Bool-cases, inl, inr, arith,
}
use buddy2api.Prelude.Member.{In}
use buddy2api.Router.{ApiKey, Gateway, allowed_of, model_allowed}
use buddy2api.Router.Admission.{
  Verdict, admitted, refused, Refusal, any, whitelisted, judge, not_whitelisted,
}

pub gate :
    (b : Bool) (r : Refusal) (v : Verdict) (base : String)
    → (if b then refused r else v) ≡ admitted base
    → (b ≡ false) × (v ≡ admitted base)
gate true r v base h = cc h
gate false r v base h = (refl, h)

admitted_inj : (a b : String) → admitted a ≡ admitted b → a ≡ b
admitted_inj a b h = cc h

refused≢admitted : (r : Refusal) (b : String) → refused r ≢ admitted b
refused≢admitted r b h = cc h

module _ (g : Gateway) (key : Option ApiKey) where
  any_of :
      (p : String → Bool) (xs : List String)
      → any p xs ≡ true
      → (c : String) × In c xs × (p c ≡ true)
  any_of p [] h = absurd (true≢false (sym h))
  any_of p (x ∷ xs) h = elim (Bool-cases (p x)) [
    | inl t ↦ (x, inl refl, t)
    | inr f ↦ let (c, i, k) = any_of p xs (later (p x) (any p xs) h f) in (c, inr i, k)
  ]
    where
      later : (a b : Bool) → (a || b) ≡ true → a ≡ false → b ≡ true
      later a b h k = ground arith

  any_to :
      (p : String → Bool) (xs : List String) (c : String) → In c xs → p c ≡ true → any p xs ≡ true
  any_to p [] c i h = absurd i
  any_to p (x ∷ xs) c (inl e) h = left (p x) (any p xs) (ap p e ∙ h)
    where
      left : (a b : Bool) → a ≡ true → (a || b) ≡ true
      left a b h = ground arith
  any_to p (x ∷ xs) c (inr i) h = right (p x) (any p xs) (any_to p xs c i h)
    where
      right : (a b : Bool) → b ≡ true → (a || b) ≡ true
      right a b h = ground arith

  unrestricted : (c base : String) → allowed_of key ≡ [] → model_allowed g key c base ≡ true
  unfolding model_allowed
  unrestricted c base e = rw e refl

  whitelisted_inv :
      (name base b : String) (allowed : List String) (c : String) (cs : List String)
      → allowed_of key ≡ allowed
      → whitelisted g key name base (c ∷ cs) allowed ≡ admitted b
      → (base ≡ b) × (d : String) × In d (c ∷ cs) × (model_allowed g key d base ≡ true)
  whitelisted_inv name base b [] c cs e h =
      (admitted_inj base b h, c, inl refl, unrestricted c base e)
  whitelisted_inv name base b (a ∷ allowed) c cs e h =
      elim (Bool-cases (any (λ d. model_allowed g key d base) (c ∷ cs))) [
        | inl t ↦
            let (d, i, k) = any_of (λ d. model_allowed g key d base) (c ∷ cs) t in
            (admitted_inj base b (sym (ap choose t) ∙ h), d, i, k)
        | inr f ↦ absurd (refused≢admitted (not_whitelisted name) b (sym (ap choose f) ∙ h))
      ]
    where
      choose : Bool → Verdict
      choose x = if x then admitted base else refused (not_whitelisted name)

  pub judge_inv :
      (name base b : String) (cs : List String)
      → judge g key name base cs ≡ admitted b
      → (base ≡ b) × (d : String) × In d cs × (model_allowed g key d base ≡ true)
  judge_inv name base b [] h = absurd (refused≢admitted _ b h)
  judge_inv name base b (c ∷ cs) h = whitelisted_inv name base b (allowed_of key) c cs refl h

  whitelisted_to :
      (name base d : String) (allowed cs : List String)
      → In d cs
      → model_allowed g key d base ≡ true
      → whitelisted g key name base cs allowed ≡ admitted base
  whitelisted_to name base d [] cs i h = refl
  whitelisted_to name base d (a ∷ allowed) cs i h =
      rw (any_to (λ c. model_allowed g key c base) cs d i h) refl

  pub judge_to :
      (name base d : String) (cs : List String)
      → In d cs
      → model_allowed g key d base ≡ true
      → judge g key name base cs ≡ admitted base
  judge_to name base d [] i h = absurd i
  judge_to name base d (c ∷ cs) i h = whitelisted_to name base d (allowed_of key) (c ∷ cs) i h
