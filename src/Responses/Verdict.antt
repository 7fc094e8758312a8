-- ===== src/Responses/Verdict.antt =====
-- responses.py, `_chat_stream_to_responses_stream`: what the status of a response says of the stream.
use buddy2api.Prelude.{
  ℕ, ◌≡◌, ◌≢◌, refl, sym, ap, ◌∙◌, Bool, true, false, true≢false, not, ◌&&◌, ◌||◌, ◌⊎◌, inl, inr,
  Bool-cases, Option, none, some, List, [], ◌∷◌, String, arith, if◌then◌else◌,
}
use buddy2api.Prelude.Texts.{is_empty, str_in, str_in_iff}
use buddy2api.Prelude.Member.{In}
use buddy2api.Prelude.Slots.{get_elem?}
use buddy2api.History.{Json, null, plain, str, arr, obj, Fields}
use buddy2api.Responses.{Python, completed, incomplete, failed, ItemState, StreamError}
use buddy2api.Responses.Stream.{CallKey}
use buddy2api.Responses.Chunks.{Session}
use buddy2api.Responses.Ending.{
  Terminal, values, keys, is_nil, has_unfinished, has_empty, ended_early, shows_nothing, of_reasons,
  of_stream, is_object, same_status, is_bad_call, has_bad_call, outcome,
}

-- A reason stands with an incomplete response and with no other, an error with a failed one and with no other.
pub data IsSound : Terminal → Type 0 where
  whole : IsSound (record { status = completed; reason = none; error = none })
  partial : (r : String) → IsSound (record { status = incomplete; reason = some r; error = none })
  broken : (e : StreamError) → IsSound (record { status = failed; reason = none; error = some e })

if-IsSound : (b : Bool) (x y : Terminal) → IsSound x → IsSound y → IsSound (if b then x else y)
if-IsSound true x y h k = h
if-IsSound false x y h k = k

of_stream-IsSound : (e : Option StreamError) (s : Session) → IsSound (of_stream e s)
unfolding of_stream
of_stream-IsSound (some e) s = broken e
of_stream-IsSound none s =
    if-IsSound (str_in "length" (values s.finished_choices)) _ _ (partial _) (
      if-IsSound (str_in "content_filter" (values s.finished_choices)) _ _ (partial _) (
        if-IsSound (ended_early s) _ _ (broken _)
          (if-IsSound (shows_nothing s) _ _ (broken _) whole)))

-- The end of a response is completed without reason and error, incomplete with a reason and no error, or failed with an error and no reason.
pub outcome-IsSound : (py : Python) (s : Session) → IsSound (outcome py s)
unfolding outcome
outcome-IsSound py s = if-IsSound _ _ _ (broken _) (of_stream-IsSound s.stream_error s)

-- What a completed response has behind it.
pub record IsWhole (py : Python) (s : Session) : Type 0 where
  pub no_error : s.stream_error ≡ none
  pub shows : s.out.item_states ≢ []
  pub not_cut :
      (c r : String)
      → In (c, r) s.finished_choices
      → (r ≢ "length") × (r ≢ "content_filter") × In c s.productive_choices
  pub finished :
      (c : String)
      → In c s.seen_choices
      → In c (keys s.finished_choices) ⊎ ((s.saw_done ≡ true) × (s.finished_choices ≡ []))
  pub called :
      (key : CallKey) (i : ℕ) (t : ItemState)
      → In (key, i) s.out.tool_states
      → get_elem? s.out.item_states i ≡ some t
      → t.closed ≡ false
      → (t.item.name ≢ "") × ((d : Fields) × (py.loads t.item.text ≡ some (obj d)))

neither : (a b : Bool) → (a || b) ≡ false → (a ≡ false) × (b ≡ false)
neither a b h = ground arith

negated : (b : Bool) → not b ≡ false → b ≡ true
negated b h = ground arith

both_not : (a b : Bool) → (not a && not b) ≡ false → a ≡ false → b ≡ true
both_not a b h k = ground arith

not_cut_word :
    (r : String)
    → r ≢ "length"
    → r ≢ "content_filter"
    → str_in r ("length" ∷ "content_filter" ∷ []) ≡ false
not_cut_word r n m = elim (Bool-cases (str_in r ("length" ∷ "content_filter" ∷ []))) [
  | inr f ↦ f
  | inl t ↦ elim ((str_in_iff r ("length" ∷ "content_filter" ∷ [])).0 t) [
    | inl e ↦ absurd (n (sym e))
    | inr (inl e) ↦ absurd (m (sym e))
    | inr (inr bad) ↦ absurd bad
  ]
]

-- A value among those of the dict.
values-In : (c r : String) (l : List (String × String)) → In (c, r) l → In r (values l)
values-In c r [] i = absurd i
values-In c r ((d, q) ∷ l) (inl e) = inl (ap (λ (p : String × String). p.1) e)
values-In c r ((d, q) ∷ l) (inr i) = inr (values-In c r l i)

absent_value :
    (w : String) (l : List (String × String))
    → str_in w (values l) ≡ false
    → (c r : String) → In (c, r) l
    → r ≢ w
absent_value w l h c r i e =
    true≢false (sym ((str_in_iff w (values l)).1 (subst_in (values-In c r l i))) ∙ h)
  where
    subst_in : In r (values l) → In w (values l)
    subst_in j = rw (← e) j

productive :
    (l : List (String × String)) (ps : List String)
    → has_empty l ps ≡ false
    → (c r : String) → In (c, r) l
    → r ≢ "length"
    → r ≢ "content_filter"
    → In c ps
productive [] ps h c r i n m = absurd i
productive ((d, q) ∷ l) ps h c r (inr i) n m =
    productive l ps (neither _ (has_empty l ps) h).1 c r i n m
productive ((d, q) ∷ l) ps h c r (inl e) n m =
    let (h1, h2) =
      neither (not (str_in q ("length" ∷ "content_filter" ∷ [])) && not (str_in d ps))
        (has_empty l ps) h in
    let same : q ≡ r = ap (λ (p : String × String). p.1) e in
    let there =
      both_not (str_in q ("length" ∷ "content_filter" ∷ [])) (str_in d ps) h1
        (rw same (not_cut_word r n m)) in
    rw (← ap (λ (p : String × String). p.0) e) ((str_in_iff d ps).0 there)

finished_all :
    (cs fs : List String) → has_unfinished cs fs ≡ false → (c : String) → In c cs → In c fs
finished_all [] fs h c i = absurd i
finished_all (d ∷ cs) fs h c (inl e) = rw (← e) (
    (str_in_iff d fs).0
      (negated (str_in d fs) (neither (not (str_in d fs)) (has_unfinished cs fs) h).0))
finished_all (d ∷ cs) fs h c (inr i) =
    finished_all cs fs (neither (not (str_in d fs)) (has_unfinished cs fs) h).1 c i

called_all :
    (py : Python) (l : List (CallKey × ℕ)) (items : List ItemState)
    → has_bad_call py l items ≡ false
    → (key : CallKey) (i : ℕ) → In (key, i) l
    → is_bad_call py (get_elem? items i) ≡ false
called_all py [] items h key i m = absurd m
called_all py ((k, j) ∷ l) items h key i (inl e) =
    rw (← ap (λ (p : CallKey × ℕ). p.1) e)
      (neither (is_bad_call py (get_elem? items j)) (has_bad_call py l items) h).0
called_all py ((k, j) ∷ l) items h key i (inr m) =
    called_all py l items
      (neither (is_bad_call py (get_elem? items j)) (has_bad_call py l items) h).1 key i m

early_cases :
    (sd ns unf nf : Bool)
    → ((not sd && (ns || unf)) || (sd && (not nf && unf))) ≡ false
    → (unf ≡ false) ⊎ ((sd ≡ true) × (nf ≡ true))
early_cases sd ns true nf h = inr (ground arith)
early_cases sd ns false nf h = inl refl

is_nil_lem : {A : Type 0} (l : List A) → is_nil l ≡ true → l ≡ []
is_nil_lem [] h = refl
is_nil_lem (x ∷ l) h = absurd (true≢false (sym h))

not_nil : {A : Type 0} (l : List A) → is_nil l ≡ false → l ≢ []
not_nil l h e = true≢false (sym (ap is_nil e) ∙ h)

second :
    (b : Bool) (x y : Terminal)
    → x.status ≢ completed
    → (if b then x else y).status ≡ completed
    → (b ≡ false) × (y.status ≡ completed)
second true x y n h = absurd (n h)
second false x y n h = (refl, h)

of_stream_quiet :
    (e : Option StreamError) (s : Session)
    → (of_stream e s).status ≡ completed
    → (e ≡ none) × ((of_reasons s).status ≡ completed)
unfolding of_stream
of_stream_quiet none s h = (refl, h)
of_stream_quiet (some e) s h = absurd (cc h)

is_object_lem : (o : Option Json) → is_object o ≡ true → (d : Fields) × (o ≡ some (obj d))
is_object_lem (some (obj d)) h = (d, refl)
is_object_lem none h = absurd (true≢false (sym h))
is_object_lem (some null) h = absurd (true≢false (sym h))
is_object_lem (some (plain t)) h = absurd (true≢false (sym h))
is_object_lem (some (str t)) h = absurd (true≢false (sym h))
is_object_lem (some (arr js)) h = absurd (true≢false (sym h))

open_good : (c e o : Bool) → (not c && (e || not o)) ≡ false → c ≡ false → (e ≡ false) × (o ≡ true)
open_good c e o h k = ground arith

good_call :
    (py : Python) (t : ItemState)
    → is_bad_call py (some t) ≡ false
    → t.closed ≡ false
    → (t.item.name ≢ "") × ((d : Fields) × (py.loads t.item.text ≡ some (obj d)))
good_call py t h c =
    let (named, parsed) =
      open_good t.closed (is_empty t.item.name) (is_object (py.loads t.item.text)) h c in
    ((λ e. true≢false (sym (ap is_empty e) ∙ named)), is_object_lem (py.loads t.item.text) parsed)

-- A response is completed only if no error came, something is shown, no choice was cut off or finished without anything to show, every choice has a reason to finish (or none has one and the upstream said that it is over), and every call that is open has a name and arguments that are an object.
pub outcome-IsWhole : (py : Python) (s : Session) → (outcome py s).status ≡ completed → IsWhole py s
unfolding outcome
outcome-IsWhole py s h =
    let first = of_stream s.stream_error s in
    let (calls_ok, h1) =
      second
        (same_status first.status completed && has_bad_call py s.out.tool_states s.out.item_states)
        _ first (λ e. cc e) h in
    let (quiet, h2) = of_stream_quiet s.stream_error s h1 in
    let (long, h3) = second (str_in "length" (values s.finished_choices)) _ _ (λ e. cc e) h2 in
    let (filtered, h4) =
      second (str_in "content_filter" (values s.finished_choices)) _ _ (λ e. cc e) h3 in
    let (early, h5) = second (ended_early s) _ _ (λ e. cc e) h4 in
    let (nothing, h6) = second (shows_nothing s) _ _ (λ e. cc e) h5 in
    let finished = s.finished_choices in
    let (seen, h7) =
      neither (is_nil s.seen_choices)
        (is_nil s.out.item_states || has_empty finished s.productive_choices) nothing in
    let (some_items, none_empty) =
      neither (is_nil s.out.item_states) (has_empty finished s.productive_choices) h7 in
    let no_bad : has_bad_call py s.out.tool_states s.out.item_states ≡ false =
      sym (
        ap (λ st. same_status st completed && has_bad_call py s.out.tool_states s.out.item_states)
          h1)
      ∙ calls_ok in
    record {
      no_error = quiet;
      shows = not_nil s.out.item_states some_items;
      not_cut = λ c r i.
          let n = absent_value "length" finished long c r i in
          let m = absent_value "content_filter" finished filtered c r i in
          (n, m, productive finished s.productive_choices none_empty c r i n m);
      finished = λ c i.
          elim (early_cases s.saw_done (is_nil s.seen_choices)
            (has_unfinished s.seen_choices (keys finished)) (is_nil finished) early) [
              | inl e ↦ inl (finished_all s.seen_choices (keys finished) e c i)
              | inr (e, n) ↦ inr (e, is_nil_lem finished n)
            ];
      called = λ key i t m at open_t.
          good_call py t
            (ap (λ o. is_bad_call py o) (sym at)
              ∙ called_all py s.out.tool_states s.out.item_states no_bad key i m)
            open_t;
    }
