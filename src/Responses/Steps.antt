-- ===== src/Responses/Steps.antt =====
-- responses.py, `_chat_stream_to_responses_stream`: every step on the items keeps the generator consistent.
use buddy2api.Prelude.{ℕ, ◌≡◌, refl, sym, ap, ◌∙◌, false, Option, none, some, map, String}
use buddy2api.Prelude.Slots.{
  get_elem?, put_at, set_key, put_at-map, put_at-get_elem?, get_elem?-map,
}
use buddy2api.Responses.{Kind, reasoning, text, tool, ItemStatus, completed, ItemState}
use buddy2api.Responses.Stream.{
  Output, close_open, close_state, close_item, release_reasoning, release_text, longer, extend,
  append_text, named, rename,
}
use buddy2api.Responses.Shown.{
  AllShown, seen_of, closed_with, close_open-Same, close_open-AllShown, extend-AllShown,
}
use buddy2api.Responses.Owned.{
  IsOpen, Refs, Calls, IsConsistent, Refs-keep, IsOpen-put_at, IsOpen-put_other, IsOpen-apart,
  Refs-remove,
}

-- Closing an open item, where the dicts already do without it.
close_open-IsConsistent :
    (i : ℕ) (s : ItemState) (status : ItemStatus) (o : Output)
    → s.closed ≡ false
    → get_elem? o.item_states i ≡ some s
    → AllShown o
    → Refs reasoning o.reasoning_states (put_at i (closed_with status s) o.item_states)
    → Refs text o.text_states (put_at i (closed_with status s) o.item_states)
    → Calls o.tool_states (put_at i (closed_with status s) o.item_states)
    → IsConsistent (close_open i status s.item o)
close_open-IsConsistent i s status o open_s at h rs ts cs =
    let (items, reasonings, texts, calls) = close_open-Same i s status o in
    record {
      shown = close_open-AllShown i s status o open_s at h;
      reasonings = rw (items, reasonings) rs;
      texts = rw (items, texts) ts;
      calls = rw (items, calls) cs;
    }

close_item_open :
    (i : ℕ) (s : ItemState) (status : ItemStatus) (o : Output)
    → s.closed ≡ false
    → get_elem? o.item_states i ≡ some s
    → close_item i status o ≡ close_open i status s.item o
unfolding close_item close_state
close_item_open i s status o open_s at = ap (λ x. close_state i status x o) at ∙ rw open_s refl

pub release_reasoning-IsConsistent :
    (c : String) (r : Option ℕ) (o : Output)
    → o.reasoning_states c ≡ r
    → IsConsistent o
    → IsConsistent (release_reasoning c r o)
unfolding release_reasoning
release_reasoning-IsConsistent c none o e h = h
release_reasoning-IsConsistent c (some i) o e h =
    let (s, at, hk, open_s) = h.reasonings.opened c i e in
    let p : Output = record o { reasoning_states = set_key o.reasoning_states c none } in
    let t = closed_with completed s in
    rw (close_item_open i s completed p open_s at) (
      close_open-IsConsistent i s completed p open_s at h.shown
        (Refs-remove reasoning o.reasoning_states c i t o.item_states e h.reasonings)
        (Refs-keep text o.text_states o.item_states (put_at i t o.item_states)
          (λ j u.
            IsOpen-put_other text j i t o.item_states
              (IsOpen-apart text reasoning j i o.item_states (λ x. cc x) u (s, at, hk, open_s)) u)
          h.texts)
        (λ key j m.
          IsOpen-put_other tool j i t o.item_states
            (IsOpen-apart tool reasoning j i o.item_states (λ x. cc x) (h.calls key j m)
              (s, at, hk, open_s))
            (h.calls key j m)))

pub release_text-IsConsistent :
    (c : String) (r : Option ℕ) (o : Output)
    → o.text_states c ≡ r
    → IsConsistent o
    → IsConsistent (release_text c r o)
unfolding release_text
release_text-IsConsistent c none o e h = h
release_text-IsConsistent c (some i) o e h =
    let (s, at, hk, open_s) = h.texts.opened c i e in
    let p : Output = record o { text_states = set_key o.text_states c none } in
    let t = closed_with completed s in
    rw (close_item_open i s completed p open_s at) (
      close_open-IsConsistent i s completed p open_s at h.shown
        (Refs-keep reasoning o.reasoning_states o.item_states (put_at i t o.item_states)
          (λ j u.
            IsOpen-put_other reasoning j i t o.item_states
              (IsOpen-apart reasoning text j i o.item_states (λ x. cc x) u (s, at, hk, open_s)) u)
          h.reasonings)
        (Refs-remove text o.text_states c i t o.item_states e h.texts)
        (λ key j m.
          IsOpen-put_other tool j i t o.item_states
            (IsOpen-apart tool text j i o.item_states (λ x. cc x) (h.calls key j m)
              (s, at, hk, open_s))
            (h.calls key j m)))

-- A change of an item that keeps its kind and keeps it open.
put_at-IsConsistent :
    (i : ℕ) (s t : ItemState) (o p : Output)
    → get_elem? o.item_states i ≡ some s
    → t.item.kind ≡ s.item.kind
    → t.closed ≡ s.closed
    → p.item_states ≡ put_at i t o.item_states
    → p.reasoning_states ≡ o.reasoning_states
    → p.text_states ≡ o.text_states
    → p.tool_states ≡ o.tool_states
    → AllShown p
    → IsConsistent o
    → IsConsistent p
put_at-IsConsistent i s t o p at k c items er et ec shown h =
    let keep : (l : Kind) (j : ℕ) → IsOpen l j o.item_states → IsOpen l j p.item_states =
      λ l j u. rw items (IsOpen-put_at l j i s t o.item_states at k c u) in
    record {
      shown = shown;
      reasonings = rw er (
          Refs-keep reasoning o.reasoning_states o.item_states p.item_states (keep reasoning)
            h.reasonings);
      texts = rw et (Refs-keep text o.text_states o.item_states p.item_states (keep text) h.texts);
      calls = rw ec (λ key j m. keep tool j (h.calls key j m));
    }

extend-IsConsistent :
    (i : ℕ) (tx : String) (r : Option ItemState) (o : Output)
    → get_elem? o.item_states i ≡ r
    → ((s : ItemState) → r ≡ some s → s.closed ≡ false)
    → IsConsistent o
    → IsConsistent (extend i tx r o)
unfolding extend
extend-IsConsistent i tx none o at opened h = h
extend-IsConsistent i tx (some s) o at opened h =
    put_at-IsConsistent i s (longer tx s) o (extend i tx (some s) o) at refl refl refl refl refl
      refl (extend-AllShown i s tx o (opened s refl) at h.shown) h

pub append_text-IsConsistent :
    (i : ℕ) (tx : String) (k : Kind) (o : Output)
    → IsOpen k i o.item_states
    → IsConsistent o
    → IsConsistent (append_text i tx o)
unfolding append_text
append_text-IsConsistent i tx k o (s, at, hk, hc) h =
    extend-IsConsistent i tx (get_elem? o.item_states i) o refl
      (λ u e. let same : s ≡ u = cc (at, e) in ap (λ (x : ItemState). x.closed) (sym same) ∙ hc) h

renamed :
    (i : ℕ) (name : String) (s : ItemState) (o : Output)
    → get_elem? o.item_states i ≡ some s
    → map seen_of (put_at i (named name s) o.item_states) ≡ map seen_of o.item_states
renamed i name s o at =
    sym (put_at-map seen_of i (named name s) o.item_states)
    ∙ put_at-get_elem? i (seen_of s) (map seen_of o.item_states)
        (get_elem?-map seen_of i s o.item_states at)

pub rename-IsConsistent :
    (i : ℕ) (f : String → String) (r : Option ItemState) (o : Output)
    → get_elem? o.item_states i ≡ r
    → IsConsistent o
    → IsConsistent (rename i f r o)
unfolding rename
rename-IsConsistent i f none o at h = h
rename-IsConsistent i f (some s) o at h =
    put_at-IsConsistent i s (named (f s.item.name) s) o (rename i f (some s) o) at refl refl refl
      refl refl refl (rw (renamed i (f s.item.name) s o at) h.shown) h

pub rename-IsOpen :
    (i : ℕ) (f : String → String) (k : Kind) (o : Output)
    → IsOpen k i o.item_states
    → IsOpen k i (rename i f (get_elem? o.item_states i) o).item_states
unfolding rename
rename-IsOpen i f k o (s, at, hk, hc) =
    rw (ap (λ r. (rename i f r o).item_states) at)
      (IsOpen-put_at k i i s (named (f s.item.name) s) o.item_states at refl refl (s, at, hk, hc))
