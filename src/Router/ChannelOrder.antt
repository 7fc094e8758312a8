-- ===== src/Router/ChannelOrder.antt =====
-- router.py, `_normalize_channel_order`: the precedence of the channels.
use buddy2api.Prelude.{
  ◌≡◌, refl, sym, ap, ◌∙◌, subst, Bool, true, false, not, ◌&&◌, List, [], ◌∷◌, ◌++◌, String,
  if◌then◌else◌, Bool-cases, inl, inr, ◌↔◌, arith, append-nil, append_assoc,
}
use buddy2api.Prelude.Member.{
  In, keep, In-append, In-append_left, In-append_right, In-keep, In-keep_of, keep_none,
}
use buddy2api.Prelude.Texts.{
  strip, str_in, str_in_iff, Nodup, Nodup-append_new, Nodup-append, Nodup-keep, str_in_one,
  str_eq-apart,
}
use buddy2api.Router.{listed, normalize_channel_order}

module _ (known : List String) where
  -- The loop's list: known channels, none twice.
  abbrev IsPart : List String → Type 0
  IsPart ordered = Nodup ordered × ((x : String) → In x ordered → In x known)

  and_both : (a b : Bool) → a && not b ≡ true → (a ≡ true) × (b ≡ false)
  and_both a b h = ground arith

  IsPart-add :
      (ordered : List String) (channel : String)
      → IsPart ordered
      → IsPart (
          if str_in channel known && not (str_in channel ordered)
          then ordered ++ channel ∷ []
          else ordered)
  IsPart-add ordered channel h =
      elim (Bool-cases (str_in channel known && not (str_in channel ordered))) [
        | inr f ↦ rw f h
        | inl t ↦
            let (there, fresh) = and_both (str_in channel known) (str_in channel ordered) t in
            rw t (
              Nodup-append_new channel ordered h.0 fresh,
              λ x i. elim (In-append x ordered (channel ∷ []) i) [
                | inl j ↦ h.1 x j
                | inr j ↦ elim j [
                  | inl e ↦ subst (λ c. In c known) e ((str_in_iff channel known).0 there)
                  | inr k ↦ absurd k
                ]
              ],
            )
      ]

  listed-IsPart : (raw ordered : List String) → IsPart ordered → IsPart (listed known ordered raw)
  unfolding listed
  listed-IsPart [] ordered h = h
  listed-IsPart (item ∷ raw) ordered h = listed-IsPart raw _ (IsPart-add ordered (strip item) h)

  not_in : (b : Bool) → not b ≡ true → b ≡ false
  not_in b h = ground arith

  in_not : (b : Bool) → b ≡ false → not b ≡ true
  in_not b h = ground arith

  -- Whatever the setting holds, the order has every enabled channel exactly once and no other.
  pub normalize_channel_order-Nodup :
      (raw : List String)
      → Nodup known
      → Nodup (normalize_channel_order known raw)
        × ((x : String) → In x (normalize_channel_order known raw) ↔ In x known)
  unfolding normalize_channel_order
  normalize_channel_order-Nodup raw once =
      let front = listed known [] raw in
      let (unique, part) = listed-IsPart raw [] (tt, λ x i. absurd i) in
      let rest : String → Bool = λ channel. not (str_in channel front) in
      (
        Nodup-append front (keep rest known) unique (Nodup-keep rest known once)
            (λ x i. not_in (str_in x front) (In-keep rest x known i).1),
        λ x. (
          λ i. elim (In-append x front (keep rest known) i) [
            | inl j ↦ part x j
            | inr j ↦ (In-keep rest x known j).0
          ],
          λ i. elim (Bool-cases (str_in x front)) [
            | inl t ↦ In-append_left x front (keep rest known) ((str_in_iff x front).0 t)
            | inr f ↦
                In-append_right x front (keep rest known)
                  (In-keep_of rest x known i (in_not (str_in x front) f))
          ],
        ),
      )

  -- A list that the loop takes as it is.
  abbrev IsClean : List String → Type 0
  IsClean [] = Unit
  IsClean (x ∷ xs) = (strip x ≡ x) × (str_in x known ≡ true) × (str_in x xs ≡ false) × IsClean xs

  apart_append :
      (x : String) (ordered xs : List String)
      → ((y : String) → In y (x ∷ xs) → str_in y ordered ≡ false)
      → str_in x xs ≡ false
      → (y : String) → In y xs
      → str_in y (ordered ++ x ∷ []) ≡ false
  apart_append x ordered xs h fresh y i =
      str_in_one y x ordered (h y (inr i)) (str_eq-apart x y xs ((str_in_iff y xs).1 i) fresh)

  listed-clean :
      (xs ordered : List String)
      → IsClean xs
      → ((y : String) → In y xs → str_in y ordered ≡ false)
      → listed known ordered xs ≡ ordered ++ xs
  unfolding listed
  listed-clean [] ordered h apart = sym (append-nil ordered)
  listed-clean (x ∷ xs) ordered (s, k, f, h) apart =
      rw (s, k, apart x (inl refl))
        (listed-clean xs (ordered ++ x ∷ []) h (apart_append x ordered xs apart f)
          ∙ append_assoc ordered (x ∷ []) xs)

  IsClean-Nodup :
      (xs : List String)
      → Nodup xs
      → ((x : String) → In x xs → In x known)
      → ((x : String) → In x known → strip x ≡ x)
      → IsClean xs
  IsClean-Nodup [] h part trim = tt
  IsClean-Nodup (x ∷ xs) h part trim = (
    trim x (part x (inl refl)),
    (str_in_iff x known).1 (part x (inl refl)),
    h.0,
    IsClean-Nodup xs h.1 (λ y i. part y (inr i)) trim,
  )

  in_full : (b : Bool) → b ≡ true → not b ≡ false
  in_full b h = ground arith

  taken_as_is :
      (order : List String)
      → IsClean order
      → ((x : String) → In x known → In x order)
      → normalize_channel_order known order ≡ order
  unfolding normalize_channel_order
  taken_as_is order clean full = rw (listed-clean order [] clean (λ y i. refl)) (
      ap (λ l. order ++ l)
        (keep_none (λ c. not (str_in c order)) known
          (λ x i. in_full (str_in x order) ((str_in_iff x order).1 (full x i))))
      ∙ append-nil order)

  -- Storing the order that is shown changes nothing: an order that came out of the setting, put back into it, comes out again, for
  -- enabled ids without duplicates and without surrounding spaces.
  pub normalize_channel_order_idempotent :
      (raw : List String)
      → Nodup known
      → ((x : String) → In x known → strip x ≡ x)
      → normalize_channel_order known (normalize_channel_order known raw)
        ≡ normalize_channel_order known raw
  normalize_channel_order_idempotent raw once trim =
      let (unique, same) = normalize_channel_order-Nodup raw once in
      let order = normalize_channel_order known raw in
      taken_as_is order (IsClean-Nodup order unique (λ x. (same x).0) trim) (λ x. (same x).1)
