-- ===== src/Responses/Shown.antt =====
-- responses.py, `_chat_stream_to_responses_stream`: what the client has seen after each event that the generator sends.
use buddy2api.Prelude.{
  ℕ, suc, ◌≡◌, refl, sym, ap, ◌∙◌, true, false, Option, some, List, [], ◌∷◌, ◌++◌, map, String,
  ◌==◌, length, arith,
}
use buddy2api.Prelude.Texts.{str_eq_self}
use buddy2api.Prelude.Slots.{
  get_elem?, put_at, get_elem?-map, put_at-map, length-map, map-append, get_elem?-last,
}
use buddy2api.Responses.{
  Kind, reasoning, text, tool, ItemStatus, completed, Item, ItemState, Body, created, started,
  item_added, part_added, delta, text_done, part_done, item_done, terminal,
}
use buddy2api.Responses.Stream.{
  Output, yield_event, close_parts, close_open, add_item, longer, extend,
}
use buddy2api.Responses.Client.{
  Seen, running, same_kind, is_about, when_fits, see, of_items, step, accept, start, replay,
  then_accept, replay-append,
}

-- The client accepted all that was sent, and knows these items.
abbrev pub Shows : List Seen → Output → Type 0
Shows es o = replay start o.sent ≡ some (record { next = o.seq; phase = running; entries = es })

pub same_number : (n : ℕ) → n == n ≡ true
same_number n = ground arith

step-running :
    (n : ℕ) (es fs : List Seen) (b : Body)
    → see es b ≡ some fs
    → step running n es b ≡ some (record { next = n; phase = running; entries = fs })
unfolding step see
step-running n es fs (created r) h = absurd (cc h)
step-running n es fs (started r) h = absurd (cc h)
step-running n es fs (terminal r) h = absurd (cc h)
step-running n es fs (item_added i x) h = ap (of_items n) h
step-running n es fs (part_added k id i) h = ap (of_items n) h
step-running n es fs (delta k id i t) h = ap (of_items n) h
step-running n es fs (text_done k id i t) h = ap (of_items n) h
step-running n es fs (part_done k id i t) h = ap (of_items n) h
step-running n es fs (item_done i x) h = ap (of_items n) h

pub yield_event-Shows :
    (es fs : List Seen) (b : Body) (o : Output)
    → see es b ≡ some fs
    → Shows es o
    → Shows fs (yield_event b o)
unfolding accept
yield_event-Shows es fs b o h s =
    replay-append start o.sent (record { sequence_number = o.seq; body = b })
    ∙ ap (λ v. then_accept v (record { sequence_number = o.seq; body = b })) s
    ∙ rw (same_number o.seq) (step-running (suc o.seq) es fs b h)

-- What the client sees of an item.
abbrev pub seen_of : ItemState → Seen
seen_of s = record { kind = s.item.kind; id = s.item.id; text = s.item.text; closed = s.closed }

same_kind_self : (k : Kind) → same_kind k k ≡ true
same_kind_self reasoning = refl
same_kind_self text = refl
same_kind_self tool = refl

-- An open item is_about its own events.
fits_self : (s : ItemState) → s.closed ≡ false → is_about s.item.kind s.item.id (seen_of s) ≡ true
fits_self s h = rw (h, same_kind_self s.item.kind, str_eq_self s.item.id) refl

when_fits_self :
    (s : ItemState) (o : Option Seen) (f : Seen → Option (List Seen))
    → s.closed ≡ false
    → o ≡ some (seen_of s)
    → when_fits s.item.kind s.item.id o f ≡ f (seen_of s)
when_fits_self s o f h e = ap (λ v. when_fits s.item.kind s.item.id v f) e ∙ rw (fits_self s h) refl

module _ (i : ℕ) (s : ItemState) (items : List ItemState) (open_s : s.closed ≡ false)
    (at : get_elem? items i ≡ some s) where
  here : get_elem? (map seen_of items) i ≡ some (seen_of s)
  here = get_elem?-map seen_of i s items at

  see-part_added :
      see (map seen_of items) (part_added s.item.kind s.item.id i) ≡ some (map seen_of items)
  unfolding see
  see-part_added = when_fits_self s _ _ open_s here

  see-text_done :
      see (map seen_of items) (text_done s.item.kind s.item.id i s.item.text)
      ≡ some (map seen_of items)
  unfolding see
  see-text_done = when_fits_self s _ _ open_s here ∙ rw (str_eq_self s.item.text) refl

  see-part_done :
      see (map seen_of items) (part_done s.item.kind s.item.id i s.item.text)
      ≡ some (map seen_of items)
  unfolding see
  see-part_done = when_fits_self s _ _ open_s here ∙ rw (str_eq_self s.item.text) refl

  see-delta :
      (t : String)
      → see (map seen_of items) (delta s.item.kind s.item.id i t)
        ≡ some (map seen_of (put_at i (longer t s) items))
  unfolding see
  see-delta t = when_fits_self s _ _ open_s here ∙ ap some (put_at-map seen_of i (longer t s) items)

  see-item_done :
      (status : ItemStatus)
      → let y : Item = record (s.item) { status = status } in
        see (map seen_of items) (item_done i y)
        ≡ some (map seen_of (put_at i (record { item = y; closed = true }) items))
  unfolding see
  see-item_done status =
      when_fits_self s _ _ open_s here
      ∙ rw (str_eq_self s.item.text) refl
      ∙ ap some (
          put_at-map seen_of i
            (record { item = record (s.item) { status = status }; closed = true }) items)

  twice :
      (k : Kind) (o : Output)
      → s.item.kind ≡ k
      → Shows (map seen_of items) o
      → Shows (map seen_of items) (
          yield_event
            (part_done k s.item.id i s.item.text)
            (yield_event (text_done k s.item.id i s.item.text) o))
  twice k o e h =
      let es = map seen_of items in
      yield_event-Shows es es (part_done k s.item.id i s.item.text)
        (yield_event (text_done k s.item.id i s.item.text) o) (rw (← e) see-part_done)
        (yield_event-Shows es es (text_done k s.item.id i s.item.text) o (rw (← e) see-text_done) h)

  close_parts-Shows :
      (k : Kind) (status : ItemStatus) (o : Output)
      → s.item.kind ≡ k
      → Shows (map seen_of items) o
      → Shows (map seen_of items) (close_parts k status s.item.id i s.item.text o)
  unfolding close_parts
  close_parts-Shows reasoning status o e h = twice reasoning o e h
  close_parts-Shows text status o e h = twice text o e h
  close_parts-Shows tool completed o e h =
      yield_event-Shows (map seen_of items) (map seen_of items)
        (text_done tool s.item.id i s.item.text) o (rw (← e) see-text_done) h
  close_parts-Shows tool ItemStatus.in_progress o e h = h
  close_parts-Shows tool ItemStatus.incomplete o e h = h
  close_parts-Shows tool ItemStatus.failed o e h = h

abbrev pub AllShown : Output → Type 0
AllShown o = Shows (map seen_of o.item_states) o

-- Two states of the generator with the same items and the same dicts.
abbrev pub Same : Output → Output → Type 0
Same o p =
    (o.item_states ≡ p.item_states)
    × (o.reasoning_states ≡ p.reasoning_states)
    × (o.text_states ≡ p.text_states)
    × (o.tool_states ≡ p.tool_states)

close_parts-Same :
    (k : Kind) (status : ItemStatus) (id : String) (i : ℕ) (t : String) (o : Output)
    → Same (close_parts k status id i t o) o
unfolding close_parts
close_parts-Same reasoning status id i t o = (refl, refl, refl, refl)
close_parts-Same text status id i t o = (refl, refl, refl, refl)
close_parts-Same tool completed id i t o = (refl, refl, refl, refl)
close_parts-Same tool ItemStatus.in_progress id i t o = (refl, refl, refl, refl)
close_parts-Same tool ItemStatus.incomplete id i t o = (refl, refl, refl, refl)
close_parts-Same tool ItemStatus.failed id i t o = (refl, refl, refl, refl)

-- The item, closed.
abbrev pub closed_with : ItemStatus → ItemState → ItemState
closed_with status s = record { item = record (s.item) { status = status }; closed = true }

pub close_open-Same :
    (i : ℕ) (s : ItemState) (status : ItemStatus) (o : Output)
    → Same
        (close_open i status s.item o)
        (record o { item_states = put_at i (closed_with status s) o.item_states })
unfolding close_open
close_open-Same i s status o =
    close_parts-Same s.item.kind status s.item.id i s.item.text
      (record o { item_states = put_at i (closed_with status s) o.item_states })

pub close_open-AllShown :
    (i : ℕ) (s : ItemState) (status : ItemStatus) (o : Output)
    → s.closed ≡ false
    → get_elem? o.item_states i ≡ some s
    → AllShown o
    → AllShown (close_open i status s.item o)
unfolding close_open
close_open-AllShown i s status o open_s at h =
    let p : Output = record o { item_states = put_at i (closed_with status s) o.item_states } in
    let q = close_parts s.item.kind status s.item.id i s.item.text p in
    let shown =
      yield_event-Shows (map seen_of o.item_states) (map seen_of p.item_states)
        (item_done i (record (s.item) { status = status })) q
        (see-item_done i s o.item_states open_s at status)
        (close_parts-Shows i s o.item_states open_s at s.item.kind status p refl h) in
    rw (close_parts-Same s.item.kind status s.item.id i s.item.text p).0 shown

pub extend-AllShown :
    (i : ℕ) (s : ItemState) (t : String) (o : Output)
    → s.closed ≡ false
    → get_elem? o.item_states i ≡ some s
    → AllShown o
    → AllShown (extend i t (some s) o)
unfolding extend
extend-AllShown i s t o open_s at h =
    let p : Output = record o { item_states = put_at i (longer t s) o.item_states } in
    yield_event-Shows (map seen_of o.item_states) (map seen_of p.item_states)
      (delta s.item.kind s.item.id i t) p (see-delta i s o.item_states open_s at t) h

pub add_item-AllShown : (x : Item) (o : Output) → AllShown o → AllShown (add_item x o)
unfolding see
add_item-AllShown x o h =
    let s : ItemState = record { item = x; closed = false } in
    yield_event-Shows (map seen_of o.item_states) (map seen_of (o.item_states ++ s ∷ []))
      (item_added (length o.item_states) x) (record o { item_states = o.item_states ++ s ∷ [] })
      (rw (length-map seen_of o.item_states, same_number (length o.item_states))
        (ap some (sym (map-append seen_of o.item_states (s ∷ [])))))
      h

-- The opening event of a part of the item that is added last.
pub part_added-AllShown :
    (x : Item) (o : Output)
    → AllShown o
    → AllShown (yield_event (part_added x.kind x.id (length o.item_states)) (add_item x o))
part_added-AllShown x o h =
    let p = add_item x o in
    yield_event-Shows (map seen_of p.item_states) (map seen_of p.item_states)
      (part_added x.kind x.id (length o.item_states)) p
      (see-part_added (length o.item_states) (record { item = x; closed = false }) p.item_states
        refl (get_elem?-last (record { item = x; closed = false }) o.item_states))
      (add_item-AllShown x o h)
