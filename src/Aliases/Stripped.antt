-- ===== src/Aliases/Stripped.antt =====
-- A text without spaces at its ends stays as it is when it is stripped.
use Prim.Native.String.{String, [] as empty, ◌∷◌ as ◌◁◌}
use buddy2api.Prelude.{◌≡◌, refl, ap, ◌∙◌, false, inl, inr, Bool-cases}
use buddy2api.Prelude.Texts.{is_space, lstrip, keep_right, rstrip, strip}

-- It does not start with a space.
abbrev StartsBare : String → Type 0
StartsBare empty = Unit
StartsBare (c ◁ s) = is_space c ≡ false

lstrip-StartsBare : (s : String) → StartsBare (lstrip s)
unfolding lstrip
lstrip-StartsBare empty = tt
lstrip-StartsBare (c ◁ s) = elim (Bool-cases (is_space c)) [
  | inl t ↦ rw t (lstrip-StartsBare s)
  | inr f ↦ rw f f
]

StartsBare-lstrip : (s : String) → StartsBare s → lstrip s ≡ s
unfolding lstrip
StartsBare-lstrip empty h = refl
StartsBare-lstrip (c ◁ s) h = rw h refl

rstrip_twice : (s : String) → rstrip (rstrip s) ≡ rstrip s
unfolding rstrip
rstrip_twice empty = refl
rstrip_twice (c ◁ s) = again (rstrip s) (rstrip_twice s)
  where
    again : (r : String) → rstrip r ≡ r → rstrip (keep_right c r) ≡ keep_right c r
    again empty h = elim (Bool-cases (is_space c)) [ inl t ↦ rw t refl | inr f ↦ rw (f, f) refl ]
    again (d ◁ r) h = ap (keep_right c) h

rstrip-StartsBare : (s : String) → StartsBare s → StartsBare (rstrip s)
unfolding rstrip
rstrip-StartsBare empty h = tt
rstrip-StartsBare (c ◁ s) h = kept (rstrip s)
  where
    kept : (r : String) → StartsBare (keep_right c r)
    kept empty = rw h h
    kept (d ◁ r) = h

pub strip_twice : (s : String) → strip (strip s) ≡ strip s
unfolding strip
strip_twice s =
    ap rstrip
      (StartsBare-lstrip (rstrip (lstrip s)) (rstrip-StartsBare (lstrip s) (lstrip-StartsBare s)))
    ∙ rstrip_twice (lstrip s)
