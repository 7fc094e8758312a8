-- ===== src/Responses/Consistent.antt =====
-- responses.py, `_chat_stream_to_responses_stream`: whatever the upstream sends, the generator stays consistent until the stream ends.
use Prim.Native.String.{[] as empty, ◌∷◌ as ◌◁◌}
use buddy2api.Prelude.{
  ℕ, ◌≡◌, refl, sym, ap, ◌∙◌, Bool, true, false, not, ◌&&◌, ◌||◌, inl, inr, Bool-cases,
  Option-cases, Option, none, some, List, [], ◌∷◌, String, str_eq, length, if◌then◌else◌,
}
use buddy2api.Prelude.Texts.{strip, is_empty}
use buddy2api.Prelude.Member.{In}
use buddy2api.Prelude.Slots.{get_elem?}
use buddy2api.History.{Json, null, plain, str, arr, obj, Fields, get, is_truthy}
use buddy2api.Responses.{Python, StreamError, tool}
use buddy2api.Responses.Stream.{CallKey, Output, rename, before_call, add_call}
use buddy2api.Responses.Chunks.{
  Upstream, Session, fail_decoding, go_on, take_reasoning, reasoning_part, is_copy, text_part,
  name_call, argue, fill_call, given_id, call_part, raise_call, tool_part, tool_parts, call_parts,
  delta_parts, note_choice, take_choice, take_choices, upstream_error, pairs_of, note_usage,
  choices_of, take_fields, take_chunk, take_stream,
}
use buddy2api.Responses.Reading.{
  update_all, find_call, has_open_tool, is_some, or_value, elements, mapping, value_of, as_text,
  index_of, grow_name,
}
use buddy2api.Responses.Owned.{IsOpen, IsConsistent}
use buddy2api.Responses.Steps.{append_text-IsConsistent, rename-IsConsistent, rename-IsOpen}
use buddy2api.Responses.Turns.{
  say_reasoning-IsConsistent, say_text-IsConsistent, before_call-IsConsistent, add_call-ReadyCall,
}

-- A session whose output is consistent.
abbrev pub Ok : Session → Type 0
Ok s = IsConsistent s.out

-- A step that keeps the output consistent.
abbrev pub Keeps : (Session → Session) → Type 0
Keeps f = (s : Session) → Ok s → Ok (f s)

go_on-Ok :
    (e : Option StreamError) (f : Session → Session) (s : Session)
    → Keeps f
    → Ok s
    → Ok (go_on e f s)
go_on-Ok none f s keep h = keep s h
go_on-Ok (some e) f s keep h = h

if-Ok : (b : Bool) (s t : Session) → Ok s → Ok t → Ok (if b then s else t)
if-Ok true s t hs ht = hs
if-Ok false s t hs ht = ht

find_call-In :
    (key : CallKey) (calls : List (CallKey × ℕ)) (i : ℕ)
    → find_call key calls ≡ some i
    → (k : CallKey) × In (k, i) calls
find_call-In key [] i h = absurd (cc h)
find_call-In (c, t) (((d, u), j) ∷ rest) i h = elim (Bool-cases (str_eq d c && str_eq u t)) [
  | inl e ↦
      let same : some j ≡ some i =
        ap (λ b. if b then some j else find_call (c, t) rest) (sym e) ∙ h in
      ((d, u), inl (ap (λ n. ((d, u), n)) (cc same)))
  | inr e ↦
      let (k, m) =
        find_call-In (c, t) rest i
          (ap (λ b. if b then some j else find_call (c, t) rest) (sym e) ∙ h) in
      (k, inr m)
]

module _ (py : Python) where
  take_reasoning-Ok : (c t : String) → Keeps (take_reasoning py c t)
  unfolding take_reasoning
  take_reasoning-Ok c t s h =
      if-Ok (is_some (s.out.text_states c) || has_open_tool c s.out.tool_states s.out.item_states) _
        _ h (say_reasoning-IsConsistent py c t s.out h)

  reasoning_part-Ok : (c : String) (r : Option Json) → Keeps (reasoning_part py c r)
  unfolding reasoning_part
  reasoning_part-Ok c r s h =
      if-Ok (is_truthy r) _ _ (take_reasoning-Ok c (as_text py (value_of r)) s h) h

  text_part-Ok : (c : String) (r t : Option Json) → Keeps (text_part py c r t)
  unfolding text_part
  text_part-Ok c r t s h =
      if-Ok (is_truthy t && not (is_copy py c r t s.out)) _ _
        (say_text-IsConsistent py c (as_text py (value_of t)) s.out h) h

  -- A call that is open, before and after a part of it.
  abbrev pub Ready : ℕ → Output → Type 0
  Ready i o = IsConsistent o × IsOpen tool i o.item_states

  rename-Ready :
      (b : Bool) (i : ℕ) (f : String → String) (o : Output)
      → Ready i o
      → Ready i (if b then rename i f (get_elem? o.item_states i) o else o)
  rename-Ready false i f o h = h
  rename-Ready true i f o (h, opened) = (
    rename-IsConsistent i f (get_elem? o.item_states i) o refl h,
    rename-IsOpen i f tool o opened,
  )

  argue-IsConsistent :
      (i : ℕ) (a : Option Json) (o : Output) → Ready i o → IsConsistent (argue py i a o)
  argue-IsConsistent i none o (h, opened) = h
  argue-IsConsistent i (some null) o (h, opened) = h
  argue-IsConsistent i (some (str empty)) o (h, opened) = h
  argue-IsConsistent i (some (str (c ◁ s))) o (h, opened) =
      append_text-IsConsistent i (c ◁ s) tool o opened h
  argue-IsConsistent i (some (plain t)) o (h, opened) =
      append_text-IsConsistent i (py.dumps (plain t)) tool o opened h
  argue-IsConsistent i (some (arr js)) o (h, opened) =
      append_text-IsConsistent i (py.dumps (arr js)) tool o opened h
  argue-IsConsistent i (some (obj d)) o (h, opened) =
      append_text-IsConsistent i (py.dumps (obj d)) tool o opened h

  fill_call-IsConsistent :
      (fn : Fields) (i : ℕ) (o : Output) → Ready i o → IsConsistent (fill_call py fn i o)
  unfolding fill_call
  fill_call-IsConsistent fn i o h =
      argue-IsConsistent i (get "arguments" fn) (name_call py i (get "name" fn) o) (
        rename-Ready (is_truthy (get "name" fn)) i
          (grow_name (as_text py (value_of (get "name" fn)))) o h)

  call_part-IsConsistent :
      (key : CallKey) (tc fn : Fields) (r : Option ℕ) (o : Output)
      → find_call key o.tool_states ≡ r
      → IsConsistent o
      → IsConsistent (call_part py key tc fn r o)
  unfolding call_part
  call_part-IsConsistent key tc fn (some i) o e h =
      let (k, m) = find_call-In key o.tool_states i e in
      fill_call-IsConsistent fn i o (h, h.calls k i m)
  call_part-IsConsistent key tc fn none o e h =
      let p = before_call py key.0 o in
      let name = as_text py (or_value (get "name" fn) (str "")) in
      let id = given_id py (get "id" tc) in
      fill_call-IsConsistent fn (length p.item_states) (add_call py key id name p)
        (add_call-ReadyCall py key id name p (before_call-IsConsistent py key.0 o h))

  raise_call-IsConsistent :
      (key : CallKey) (r : Option ℕ) (o : Output)
      → IsConsistent o
      → IsConsistent (raise_call py key r o)
  unfolding raise_call
  raise_call-IsConsistent key none o h = before_call-IsConsistent py key.0 o h
  raise_call-IsConsistent key (some i) o h = h

  tool_part-Ok : (c : String) (tc : Fields) → Keeps (tool_part py c tc)
  unfolding tool_part
  tool_part-Ok c tc s h = elim (Option-cases (mapping (get "function" tc))) [
    | inl e ↦
        rw (e, tool_part) (raise_call-IsConsistent (c, index_of py (get "index" tc)) _ s.out h)
    | inr (fn, e) ↦
        rw (e, tool_part)
          (call_part-IsConsistent (c, index_of py (get "index" tc)) tc fn _ s.out refl h)
  ]

  tool_parts-Ok : (c : String) (tcs : List Json) → Keeps (tool_parts py c tcs)
  unfolding tool_parts
  tool_parts-Ok c [] s h = h
  tool_parts-Ok c (obj tc ∷ tcs) s h =
      go_on-Ok (tool_part py c tc s).stream_error (tool_parts py c tcs) (tool_part py c tc s)
        (tool_parts-Ok c tcs) (tool_part-Ok c tc s h)
  tool_parts-Ok c (null ∷ tcs) s h = tool_parts-Ok c tcs s h
  tool_parts-Ok c (plain t ∷ tcs) s h = tool_parts-Ok c tcs s h
  tool_parts-Ok c (str t ∷ tcs) s h = tool_parts-Ok c tcs s h
  tool_parts-Ok c (arr js ∷ tcs) s h = tool_parts-Ok c tcs s h

  call_parts-Ok : (c : String) (calls : Option Json) → Keeps (call_parts py c calls)
  unfolding call_parts
  call_parts-Ok c calls s h = elim (Option-cases (elements calls)) [
    | inl e ↦ rw (e, call_parts) h
    | inr (tcs, e) ↦ rw (e, call_parts) (tool_parts-Ok c tcs s h)
  ]

  delta_parts-Ok : (c : String) (d : Fields) → Keeps (delta_parts py c d)
  unfolding delta_parts
  delta_parts-Ok c d s h =
      let r = get "reasoning_content" d in
      go_on-Ok (reasoning_part py c r s).stream_error
        (λ p. call_parts py c (get "tool_calls" d) (text_part py c r (get "content" d) p))
        (reasoning_part py c r s)
        (λ p k.
          call_parts-Ok c (get "tool_calls" d) (text_part py c r (get "content" d) p)
            (text_part-Ok c r (get "content" d) p k))
        (reasoning_part-Ok c r s h)

  take_choice-Ok : (choice : Fields) → Keeps (take_choice py choice)
  unfolding take_choice
  take_choice-Ok choice s h = elim (Option-cases (mapping (get "delta" choice))) [
    | inl e ↦ rw (e, take_choice) h
    | inr (d, e) ↦
        rw (e, take_choice)
          (delta_parts-Ok (index_of py (get "index" choice)) d
            (note_choice py (index_of py (get "index" choice)) (get "finish_reason" choice) s) h)
  ]

  take_choices-Ok : (cs : List Json) → Keeps (take_choices py cs)
  unfolding take_choices
  take_choices-Ok [] s h = h
  take_choices-Ok (obj choice ∷ cs) s h =
      go_on-Ok (take_choice py choice s).stream_error (take_choices py cs) (take_choice py choice s)
        (take_choices-Ok cs) (take_choice-Ok choice s h)
  take_choices-Ok (null ∷ cs) s h = take_choices-Ok cs s h
  take_choices-Ok (plain t ∷ cs) s h = take_choices-Ok cs s h
  take_choices-Ok (str t ∷ cs) s h = take_choices-Ok cs s h
  take_choices-Ok (arr js ∷ cs) s h = take_choices-Ok cs s h

  upstream_error-Ok : (j : Json) → Keeps (upstream_error py j)
  unfolding upstream_error
  upstream_error-Ok (obj e) s h = h
  upstream_error-Ok null s h = h
  upstream_error-Ok (plain t) s h = h
  upstream_error-Ok (str t) s h = h
  upstream_error-Ok (arr js) s h = h

  note_usage-Ok : (u : Option Json) → Keeps (note_usage py u)
  unfolding note_usage
  note_usage-Ok u s h = if-Ok (is_truthy u) _ _ (update (pairs_of py (value_of u)) refl) h
    where
      update :
          (r : Option Fields)
          → pairs_of py (value_of u) ≡ r
          → Ok (elim (pairs_of py (value_of u)) [
            | some d ↦ record s { usage = update_all d s.usage }
            | none ↦ fail_decoding (py.message "update" (value_of u)) s
          ])
      update none e = rw e h
      update (some d) e = rw e h

  choices_of-Ok : (choices : Option Json) → Keeps (choices_of py choices)
  unfolding choices_of
  choices_of-Ok choices s h = elim (Option-cases (elements choices)) [
    | inl e ↦ rw (e, choices_of) h
    | inr (cs, e) ↦ rw (e, choices_of) (take_choices-Ok cs s h)
  ]

  take_fields-Ok : (chunk : Fields) → Keeps (take_fields py chunk)
  unfolding take_fields
  take_fields-Ok chunk s h =
      let p : Session = record s {
        response_model = or_value (get "model" chunk) s.response_model;
      } in
      let q = note_usage py (get "usage" chunk) p in
      if-Ok (is_truthy (get "error" chunk)) _ _
        (upstream_error-Ok (value_of (get "error" chunk)) s h)
        (go_on-Ok q.stream_error (choices_of py (get "choices" chunk)) q
          (choices_of-Ok (get "choices" chunk)) (note_usage-Ok (get "usage" chunk) p h))

  take_chunk-Ok : (chunk : Option Json) → Keeps (take_chunk py chunk)
  unfolding take_chunk
  take_chunk-Ok none s h = h
  take_chunk-Ok (some (obj d)) s h = take_fields-Ok d s h
  take_chunk-Ok (some null) s h = h
  take_chunk-Ok (some (plain t)) s h = h
  take_chunk-Ok (some (str t)) s h = h
  take_chunk-Ok (some (arr js)) s h = h

  pub take_stream-Ok : (data_stream : List Upstream) → Keeps (take_stream py data_stream)
  unfolding take_stream
  take_stream-Ok [] s h = h
  take_stream-Ok (Upstream.decoding exc ∷ rest) s h = h
  take_stream-Ok (Upstream.other exc ∷ rest) s h = h
  take_stream-Ok (Upstream.line t ∷ rest) s h = elim (Bool-cases (is_empty (strip t))) [
    | inl e ↦ rw (e, take_stream) (take_stream-Ok rest s h)
    | inr e ↦
        rw (e, take_stream)
          (elim (Bool-cases (str_eq (strip t) "[DONE]")) [
            | inl d ↦ rw (d, take_stream) h
            | inr d ↦
                rw (d, take_stream)
                  (let p = take_chunk py (py.loads (strip t)) s in
                    go_on-Ok p.stream_error (take_stream py rest) p (take_stream-Ok rest)
                      (take_chunk-Ok (py.loads (strip t)) s h))
          ])
  ]
