-- ===== src/Prelude/Texts.antt =====
-- Python's `str` operations and collections of strings.
use Prim.Native.Nat.{ℕ}
use Prim.Native.Char.{Char, code}
use Prim.Native.String.{String, [] as empty, ◌∷◌ as ◌◁◌}
use mathlib.Core.Path.{◌≡◌, refl, sym, ap, ◌∙◌}
use mathlib.Core.Logic.{◌⊎◌, inl, inr, ◌↔◌}
use mathlib.Core.Bool.{Bool, true, false, true≢false, ◌&&◌, ◌||◌}
use mathlib.Core.Option.{Option, none, some}
use mathlib.Core.List.{List, [], ◌∷◌, ◌++◌}
use native.Mathlib.Omega.{arith}
use text.Mathlib.Text.{◌==◌ as str_eq}
use text.Mathlib.TextEquality.{eq_iff as str_eq_iff}
use buddy2api.Prelude.Tests.{leb, ◌==◌, if◌then◌else◌}
use buddy2api.Prelude.Cases.{Bool-cases}
use buddy2api.Prelude.Member.{In, keep}

abbrev between : ℕ → ℕ → ℕ → Bool
between a n b = leb a n && leb n b

-- `c.isspace()`, as `str.strip` asks it.
abbrev pub is_space : Char → Bool
is_space c =
    let n = code c in
    between 9 n 13
    || (between 28 n 32
        || (n == 133
            || (n == 160
                || (n == 5760
                    || (between 8192 n 8202
                        || (between 8232 n 8233 || (n == 8239 || (n == 8287 || n == 12288))))))))

unfoldable pub lstrip : String → String
lstrip empty = empty
lstrip (c ◁ s) = if is_space c then lstrip s else c ◁ s

-- One character before a text whose trailing spaces are gone.
abbrev pub keep_right : Char → String → String
keep_right c empty = if is_space c then empty else c ◁ empty
keep_right c (d ◁ s) = c ◁ d ◁ s

unfoldable pub rstrip : String → String
rstrip empty = empty
rstrip (c ◁ s) = keep_right c (rstrip s)

unfoldable pub strip : String → String
unfolding lstrip rstrip
strip s = rstrip (lstrip s)

-- `not s`
abbrev pub is_empty : String → Bool
is_empty empty = true
is_empty (c ◁ s) = false

-- A separator that ends the first part: the parts of `s.split(sep)`, never none of them.
abbrev pub push : Char → List String → List String
push c [] = (c ◁ empty) ∷ []
push c (p ∷ parts) = (c ◁ p) ∷ parts

unfoldable pub split : Char → String → List String
split sep empty = empty ∷ []
split sep (c ◁ s) = if code c == code sep then empty ∷ split sep s else push c (split sep s)

-- `s.partition(sep)` with `none` where the separator does not occur.
abbrev pub add_first : Char → Option (String × String) → Option (String × String)
add_first c none = none
add_first c (some (a, b)) = some (c ◁ a, b)

unfoldable pub partition : Char → String → Option (String × String)
partition sep empty = none
partition sep (c ◁ s) =
    if code c == code sep then some (empty, s) else add_first c (partition sep s)

-- `value in channels`
abbrev pub str_in : String → List String → Bool
str_in s [] = false
str_in s (t ∷ ts) = str_eq s t || str_in s ts

-- No text stands twice.
abbrev pub Nodup : List String → Type 0
Nodup [] = Unit
Nodup (s ∷ ss) = (str_in s ss ≡ false) × Nodup ss

pub str_eq_self : (s : String) → str_eq s s ≡ true
str_eq_self s = (str_eq_iff s s).1 refl

one_way : (b c : Bool) → (b ≡ true → c ≡ true) → (c ≡ true → b ≡ true) → b ≡ c
one_way b c h k = ground arith

pub str_eq_sym : (s t : String) → str_eq s t ≡ str_eq t s
str_eq_sym s t =
    one_way (str_eq s t) (str_eq t s) (λ e. (str_eq_iff t s).1 (sym ((str_eq_iff s t).0 e)))
      (λ e. (str_eq_iff s t).1 (sym ((str_eq_iff t s).0 e)))

or_assoc : (a b c d : Bool) → b ≡ (c || d) → (a || b) ≡ ((a || c) || d)
or_assoc a b c d h = ground arith

pub str_in-append :
    (x : String) (xs ys : List String) → str_in x (xs ++ ys) ≡ (str_in x xs || str_in x ys)
str_in-append x [] ys = refl
str_in-append x (z ∷ xs) ys =
    or_assoc (str_eq x z) (str_in x (xs ++ ys)) (str_in x xs) (str_in x ys) (str_in-append x xs ys)

or_cases : (a b : Bool) → (a || b) ≡ true → (a ≡ true) ⊎ (b ≡ true)
or_cases a b h = ground arith

or_left : (a b : Bool) → a ≡ true → (a || b) ≡ true
or_left a b h = ground arith

or_right : (a b : Bool) → b ≡ true → (a || b) ≡ true
or_right a b h = ground arith

or_false : (a b : Bool) → a ≡ false → b ≡ false → (a || b) ≡ false
or_false a b h k = ground arith

neither : (a b : Bool) → (a || b) ≡ false → (a ≡ false) × (b ≡ false)
neither a b h = ground arith

pub str_in_iff : (x : String) (xs : List String) → (str_in x xs ≡ true) ↔ In x xs
str_in_iff x [] = (λ h. absurd (true≢false (sym h)), λ i. absurd i)
str_in_iff x (z ∷ xs) = (
  λ h. elim (or_cases (str_eq x z) (str_in x xs) h) [
    | inl e ↦ inl (sym ((str_eq_iff x z).0 e))
    | inr i ↦ inr ((str_in_iff x xs).0 i)
  ],
  λ i. elim i [
    | inl e ↦ or_left (str_eq x z) (str_in x xs) ((str_eq_iff x z).1 (sym e))
    | inr j ↦ or_right (str_eq x z) (str_in x xs) ((str_in_iff x xs).1 j)
  ],
)

pub Nodup-append_new :
    (x : String) (xs : List String) → Nodup xs → str_in x xs ≡ false → Nodup (xs ++ x ∷ [])
Nodup-append_new x [] h k = (refl, tt)
Nodup-append_new x (z ∷ xs) h k =
    let (apart, rest) = neither (str_eq x z) (str_in x xs) k in
    (
      str_in-append z xs (x ∷ [])
          ∙ or_false (str_in z xs) (str_eq z x || false) h.0
              (or_false (str_eq z x) false (str_eq_sym z x ∙ apart) refl),
      Nodup-append_new x xs h.1 rest,
    )

-- A text that a filter leaves out stays out, and a filter makes no duplicates.
pub str_in-keep :
    (p : String → Bool) (x : String) (xs : List String)
    → str_in x xs ≡ false
    → str_in x (keep p xs) ≡ false
str_in-keep p x [] h = refl
str_in-keep p x (z ∷ xs) h =
    let (apart, rest) = neither (str_eq x z) (str_in x xs) h in
    elim (Bool-cases (p z)) [
      | inl t ↦ rw t (or_false (str_eq x z) (str_in x (keep p xs)) apart (str_in-keep p x xs rest))
      | inr f ↦ rw f (str_in-keep p x xs rest)
    ]

pub Nodup-keep : (p : String → Bool) (xs : List String) → Nodup xs → Nodup (keep p xs)
Nodup-keep p [] h = tt
Nodup-keep p (z ∷ xs) h = elim (Bool-cases (p z)) [
  | inl t ↦ rw t (str_in-keep p z xs h.0, Nodup-keep p xs h.1)
  | inr f ↦ rw f (Nodup-keep p xs h.1)
]

pub Nodup-append :
    (xs ys : List String)
    → Nodup xs
    → Nodup ys
    → ((x : String) → In x ys → str_in x xs ≡ false)
    → Nodup (xs ++ ys)
Nodup-append [] ys h k apart = k
Nodup-append (x ∷ xs) ys h k apart =
    (absent, Nodup-append xs ys h.1 k (λ z i. (neither (str_eq z x) (str_in z xs) (apart z i)).1))
  where
    absent : str_in x (xs ++ ys) ≡ false
    absent =
        str_in-append x xs ys
        ∙ or_false (str_in x xs) (str_in x ys) h.0 (elim (Bool-cases (str_in x ys)) [
          | inr f ↦ f
          | inl t ↦ absurd (
              true≢false (
                sym (or_left (str_eq x x) (str_in x xs) (str_eq_self x))
                ∙ apart x ((str_in_iff x ys).0 t)))
        ])

pub str_eq-apart :
    (x y : String) (xs : List String)
    → str_in y xs ≡ true
    → str_in x xs ≡ false
    → str_eq y x ≡ false
str_eq-apart x y xs h k = elim (Bool-cases (str_eq y x)) [
  | inr f ↦ f
  | inl t ↦ absurd (true≢false (sym h ∙ ap (λ z. str_in z xs) ((str_eq_iff y x).0 t) ∙ k))
]

pub str_in_one :
    (y x : String) (xs : List String)
    → str_in y xs ≡ false
    → str_eq y x ≡ false
    → str_in y (xs ++ x ∷ []) ≡ false
str_in_one y x xs h k =
    str_in-append y xs (x ∷ [])
    ∙ or_false (str_in y xs) (str_eq y x || false) h (or_false (str_eq y x) false k refl)
