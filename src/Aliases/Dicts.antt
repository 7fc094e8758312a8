-- ===== src/Aliases/Dicts.antt =====
-- The laws of dicts with text keys: an entry that is put, and a dict that is built again from its entries.
use Prim.Native.String.{String}
use buddy2api.Prelude.{
  ◌≡◌, refl, sym, ap, ◌∙◌, subst, Bool, false, ◌||◌, inl, inr, Bool-cases, List, [], ◌∷◌, ◌++◌,
  str_eq, str_eq_iff, All, arith,
}
use buddy2api.Prelude.Texts.{str_eq_sym}
use buddy2api.Aliases.{has_entry, put_entry}

parts : (a b : Bool) → (a || b) ≡ false → (a ≡ false) × (b ≡ false)
parts a b h = ground arith

neither : (a b : Bool) → a ≡ false → b ≡ false → (a || b) ≡ false
neither a b h k = ground arith

module _ {A : Type 0} where
  -- No key stands twice.
  abbrev pub Distinct : List (String × A) → Type 0
  Distinct [] = Unit
  Distinct ((k, a) ∷ m) = (has_entry k m ≡ false) × Distinct m

  has_entry-put_entry :
      (j k : String) (a : A) (m : List (String × A))
      → str_eq k j ≡ false
      → has_entry j m ≡ false
      → has_entry j (put_entry k a m) ≡ false
  has_entry-put_entry j k a [] h g = neither (str_eq k j) false h refl
  has_entry-put_entry j k a ((i, b) ∷ m) h g =
      let (f, rest) = parts (str_eq i j) (has_entry j m) g in
      elim (Bool-cases (str_eq i k)) [
        | inl t ↦ rw t (neither (str_eq i j) (has_entry j m) f rest)
        | inr n ↦ rw n (
            neither (str_eq i j) (has_entry j (put_entry k a m)) f
              (has_entry-put_entry j k a m h rest))
      ]

  pub put_entry-Distinct :
      (k : String) (a : A) (m : List (String × A)) → Distinct m → Distinct (put_entry k a m)
  put_entry-Distinct k a [] h = (refl, tt)
  put_entry-Distinct k a ((i, b) ∷ m) h = elim (Bool-cases (str_eq i k)) [
    | inl t ↦ rw t h
    | inr n ↦
        rw n (has_entry-put_entry i k a m (str_eq_sym k i ∙ n) h.0, put_entry-Distinct k a m h.1)
  ]

  pub put_entry-All :
      (P : String × A → Type 0) (k : String) (a : A) (m : List (String × A))
      → P (k, a)
      → All P m
      → All P (put_entry k a m)
  put_entry-All P k a [] p h = (p, tt)
  put_entry-All P k a ((i, b) ∷ m) p h = elim (Bool-cases (str_eq i k)) [
    | inl t ↦ rw t (subst (λ j. P (j, a)) (sym ((str_eq_iff i k).0 t)) p, h.1)
    | inr n ↦ rw n (h.0, put_entry-All P k a m p h.1)
  ]

  pub put_entry-new :
      (k : String) (a : A) (m : List (String × A))
      → has_entry k m ≡ false
      → put_entry k a m ≡ m ++ (k, a) ∷ []
  put_entry-new k a [] h = refl
  put_entry-new k a ((i, b) ∷ m) h =
      let (f, rest) = parts (str_eq i k) (has_entry k m) h in
      rw f (ap (λ l. (i, b) ∷ l) (put_entry-new k a m rest))

  -- None of the keys is in the other dict.
  abbrev pub Fresh : List (String × A) → List (String × A) → Type 0
  Fresh out [] = Unit
  Fresh out ((k, a) ∷ m) = (has_entry k out ≡ false) × Fresh out m

  has_entry-last :
      (j k : String) (a : A) (out : List (String × A))
      → has_entry j out ≡ false
      → str_eq k j ≡ false
      → has_entry j (out ++ (k, a) ∷ []) ≡ false
  has_entry-last j k a [] h g = neither (str_eq k j) false g refl
  has_entry-last j k a ((i, b) ∷ out) h g =
      let (f, rest) = parts (str_eq i j) (has_entry j out) h in
      neither (str_eq i j) (has_entry j (out ++ (k, a) ∷ [])) f (has_entry-last j k a out rest g)

  pub Fresh-last :
      (k : String) (a : A) (out m : List (String × A))
      → Fresh out m
      → has_entry k m ≡ false
      → Fresh (out ++ (k, a) ∷ []) m
  Fresh-last k a out [] h g = tt
  Fresh-last k a out ((i, b) ∷ m) h g =
      let (f, rest) = parts (str_eq i k) (has_entry k m) g in
      (has_entry-last i k a out h.0 (str_eq_sym k i ∙ f), Fresh-last k a out m h.1 rest)

  pub Fresh-nil : (m : List (String × A)) → Fresh [] m
  Fresh-nil [] = tt
  Fresh-nil ((k, a) ∷ m) = (refl, Fresh-nil m)
