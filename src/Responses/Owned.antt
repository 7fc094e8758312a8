-- ===== src/Responses/Owned.antt =====
-- responses.py, `_chat_stream_to_responses_stream`: the dicts of the generator point to open items of their kind, and no two choices share one.
use buddy2api.Prelude.{
  ℕ, ◌≡◌, ◌≢◌, refl, sym, ap, ◌∙◌, subst, false, true≢false, inl, inr, Bool-cases, Option, none,
  some, List, [], ◌∷◌, ◌++◌, String, str_eq, str_eq_iff, length, arith, ◌⊎◌, if◌then◌else◌, ◌==◌,
  ==_iff,
}
use buddy2api.Prelude.Member.{In, In-append}
use buddy2api.Prelude.Slots.{
  get_elem?, put_at, set_key, get_elem?-put_self, get_elem?-put_other, get_elem?-append,
  get_elem?-last, get_elem?-lt,
}
use buddy2api.Responses.{Kind, reasoning, text, tool, ItemState}
use buddy2api.Responses.Stream.{CallKey, Output}
use buddy2api.Responses.Shown.{AllShown}

-- The item at an index is open and of a kind.
abbrev pub IsOpen : Kind → ℕ → List ItemState → Type 0
IsOpen k i items =
    (s : ItemState) × (get_elem? items i ≡ some s) × (s.item.kind ≡ k) × (s.closed ≡ false)

pub record Refs (k : Kind) (m : String → Option ℕ) (items : List ItemState) : Type 0 where
  pub opened : (c : String) (i : ℕ) → m c ≡ some i → IsOpen k i items
  pub apart : (c d : String) (i : ℕ) → m c ≡ some i → m d ≡ some i → c ≡ d

abbrev pub Calls : List (CallKey × ℕ) → List ItemState → Type 0
Calls calls items = (key : CallKey) (i : ℕ) → In (key, i) calls → IsOpen tool i items

pub record IsConsistent (o : Output) : Type 0 where
  pub shown : AllShown o
  pub reasonings : Refs reasoning o.reasoning_states o.item_states
  pub texts : Refs text o.text_states o.item_states
  pub calls : Calls o.tool_states o.item_states

-- Items that stay open keep the references to them.
pub Refs-keep :
    (k : Kind) (m : String → Option ℕ) (items items' : List ItemState)
    → ((i : ℕ) → IsOpen k i items → IsOpen k i items')
    → Refs k m items
    → Refs k m items'
Refs-keep k m items items' keep r = record {
  opened = λ c i e. keep i (r.opened c i e);
  apart = r.apart;
}

apart_of : (i j : ℕ) → i == j ≡ false → i ≢ j
apart_of i j h e = ground arith

-- A change of an open item that leaves its kind and keeps it open.
pub IsOpen-put_at :
    (k : Kind) (i j : ℕ) (s t : ItemState) (items : List ItemState)
    → get_elem? items j ≡ some s
    → t.item.kind ≡ s.item.kind
    → t.closed ≡ s.closed
    → IsOpen k i items
    → IsOpen k i (put_at j t items)
IsOpen-put_at k i j s t items at same_k same_c (u, h, hk, hc) = elim (Bool-cases (i == j)) [
  | inl e ↦
      let same : u ≡ s = cc (h, at, (==_iff i j).0 e) in
      (
        t,
        subst (λ n. get_elem? (put_at j t items) n ≡ some t) (sym ((==_iff i j).0 e))
            (get_elem?-put_self j t s items at),
        same_k ∙ ap (λ (x : ItemState). x.item.kind) (sym same) ∙ hk,
        same_c ∙ ap (λ (x : ItemState). x.closed) (sym same) ∙ hc,
      )
  | inr e ↦ (u, get_elem?-put_other j i t items (apart_of i j e) ∙ h, hk, hc)
]

-- Closing an item of another kind, or another one of this kind.
pub IsOpen-put_other :
    (k : Kind) (i j : ℕ) (t : ItemState) (items : List ItemState)
    → i ≢ j
    → IsOpen k i items
    → IsOpen k i (put_at j t items)
IsOpen-put_other k i j t items ne (u, h, hk, hc) =
    (u, get_elem?-put_other j i t items ne ∙ h, hk, hc)

pub IsOpen-apart :
    (k l : Kind) (i j : ℕ) (items : List ItemState)
    → k ≢ l
    → IsOpen k i items
    → IsOpen l j items
    → i ≢ j
IsOpen-apart k l i j items ne (u, h, hk, hc) (v, g, gk, gc) e =
    let same : u ≡ v = cc (h, g, e) in ne (cc (same, hk, gk))

pub IsOpen-append :
    (k : Kind) (i : ℕ) (s : ItemState) (items : List ItemState)
    → IsOpen k i items
    → IsOpen k i (items ++ s ∷ [])
IsOpen-append k i s items (u, h, hk, hc) = (u, get_elem?-append i u items (s ∷ []) h, hk, hc)

pub IsOpen-last :
    (s : ItemState) (items : List ItemState)
    → s.closed ≡ false
    → IsOpen s.item.kind (length items) (items ++ s ∷ [])
IsOpen-last s items h = (s, get_elem?-last s items, refl, h)

-- An entry after `set_key`: the new one, or one of another choice.
set_key_cases :
    (m : String → Option ℕ) (c d : String) (v w : Option ℕ)
    → set_key m c v d ≡ w
    → ((d ≡ c) × (v ≡ w)) ⊎ ((d ≢ c) × (m d ≡ w))
set_key_cases m c d v w h = elim (Bool-cases (str_eq d c)) [
  | inl t ↦ inl ((str_eq_iff d c).0 t, ap (λ b. if b then v else m d) (sym t) ∙ h)
  | inr f ↦ inr (
    (λ e. true≢false (sym ((str_eq_iff d c).1 e) ∙ f)),
    ap (λ b. if b then v else m d) (sym f) ∙ h,
  )
]

pub Refs-remove :
    (k : Kind) (m : String → Option ℕ) (c : String) (i : ℕ) (t : ItemState) (items : List ItemState)
    → m c ≡ some i
    → Refs k m items
    → Refs k (set_key m c none) (put_at i t items)
Refs-remove k m c i t items e r = record {
  opened = λ d j h. elim (set_key_cases m c d none (some j) h) [
    | inl (same, bad) ↦ absurd (cc bad)
    | inr (other, g) ↦
        IsOpen-put_other k j i t items (λ s. other (r.apart d c j g (e ∙ ap some (sym s))))
          (r.opened d j g)
  ];
  apart = λ d d' j h h'. elim (set_key_cases m c d none (some j) h) [
    | inl (same, bad) ↦ absurd (cc bad)
    | inr (other, g) ↦ elim (set_key_cases m c d' none (some j) h') [
      | inl (same, bad) ↦ absurd (cc bad)
      | inr (other', g') ↦ r.apart d d' j g g'
    ]
  ];
}

fresh :
    (k : Kind) (m : String → Option ℕ) (d : String) (items : List ItemState)
    → Refs k m items
    → m d ≡ some (length items)
    → ⊥
fresh k m d items r h =
    let (s, at, hk, hc) = r.opened d (length items) h in
    absurd (omega (arith, get_elem?-lt (length items) s items at))

pub Refs-add :
    (m : String → Option ℕ) (c : String) (s : ItemState) (items : List ItemState)
    → s.closed ≡ false
    → Refs s.item.kind m items
    → Refs s.item.kind (set_key m c (some (length items))) (items ++ s ∷ [])
Refs-add m c s items open_s r = record {
  opened = λ d j h. elim (set_key_cases m c d (some (length items)) (some j) h) [
    | inl (same, e) ↦
        subst (λ n. IsOpen s.item.kind n (items ++ s ∷ [])) (cc e) (IsOpen-last s items open_s)
    | inr (other, g) ↦ IsOpen-append s.item.kind j s items (r.opened d j g)
  ];
  apart = λ d d' j h h'. elim (set_key_cases m c d (some (length items)) (some j) h) [
    | inl (same, e) ↦ elim (set_key_cases m c d' (some (length items)) (some j) h') [
      | inl (same', e') ↦ same ∙ sym same'
      | inr (other', g') ↦ absurd (fresh s.item.kind m d' items r (g' ∙ sym e))
    ]
    | inr (other, g) ↦ elim (set_key_cases m c d' (some (length items)) (some j) h') [
      | inl (same', e') ↦ absurd (fresh s.item.kind m d items r (g ∙ sym e'))
      | inr (other', g') ↦ r.apart d d' j g g'
    ]
  ];
}

pub Calls-add :
    (calls : List (CallKey × ℕ)) (key : CallKey) (s : ItemState) (items : List ItemState)
    → s.closed ≡ false
    → s.item.kind ≡ tool
    → Calls calls items
    → Calls (calls ++ (key, length items) ∷ []) (items ++ s ∷ [])
Calls-add calls key s items open_s hk r d i h =
    elim (In-append (d, i) calls ((key, length items) ∷ []) h) [
      | inl j ↦ IsOpen-append tool i s items (r d i j)
      | inr (inl e) ↦
          subst (λ n. IsOpen tool n (items ++ s ∷ [])) (ap (λ (p : CallKey × ℕ). p.1) e)
            (s, get_elem?-last s items, hk, open_s)
      | inr (inr bad) ↦ absurd bad
    ]
