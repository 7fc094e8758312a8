-- ===== src/Responses/Complete.antt =====
-- responses.py, `_chat_stream_to_responses_stream`: the whole stream, as the client sees it.
use buddy2api.Prelude.{
  ℕ, zero, suc, ◌+◌, ◌<◌, ◌≡◌, refl, sym, ap, ◌∙◌, subst, true, inl, inr, Bool-cases, Option, none,
  some, List, [], ◌∷◌, map, length, arith, ◌==◌, ==_iff,
}
use buddy2api.Prelude.Slots.{
  get_elem?, put_at, get_elem?-put_self, get_elem?-put_other, length-put_at,
}
use buddy2api.History.{Fields}
use buddy2api.Responses.{Python, ItemStatus, Item, ItemState, Response, terminal}
use buddy2api.Responses.Stream.{Output, yield_event, close_state, close_item}
use buddy2api.Responses.Chunks.{Upstream, Session, take_stream}
use buddy2api.Responses.Ending.{
  Setup, Terminal, output_of, error_of, responses_usage, outcome, close_from, item_status,
  snapshot_ended, send_terminal, end_stream, start_output, start_session,
  chat_stream_to_responses_stream,
}
use buddy2api.Responses.Client.{
  Seen, running, ended, all_closed, step, accept, start, replay, then_accept, replay-append,
}
use buddy2api.Responses.Shown.{
  Shows, AllShown, same_number, seen_of, closed_with, close_open-Same, close_open-AllShown,
}
use buddy2api.Responses.Owned.{IsConsistent}
use buddy2api.Responses.Consistent.{take_stream-Ok}

abbrev pub ClosedBelow : ℕ → List ItemState → Type 0
ClosedBelow i items = (j : ℕ) (s : ItemState) → j < i → get_elem? items j ≡ some s → s.closed ≡ true

-- One round of the last loop.
record Round (i : ℕ) (o p : Output) : Type 0 where
  pub shown : AllShown p
  pub below : ClosedBelow (suc i) p.item_states
  pub same_length : length p.item_states ≡ length o.item_states

below-suc :
    (i : ℕ) (items : List ItemState)
    → ClosedBelow i items
    → ((s : ItemState) → get_elem? items i ≡ some s → s.closed ≡ true)
    → ClosedBelow (suc i) items
below-suc i items below last j s lt at = elim (Bool-cases (j == i)) [
  | inl e ↦ last s (subst (λ n. get_elem? items n ≡ some s) ((==_iff j i).0 e) at)
  | inr e ↦ below j s (grind arith) at
]

put_at-ClosedBelow :
    (i : ℕ) (t : ItemState) (s : ItemState) (items : List ItemState)
    → get_elem? items i ≡ some s
    → t.closed ≡ true
    → ClosedBelow i items
    → ClosedBelow (suc i) (put_at i t items)
put_at-ClosedBelow i t s items at ht below =
    below-suc i (put_at i t items)
      (λ j u lt h. below j u lt (sym (get_elem?-put_other i j t items (λ e. ne j lt e)) ∙ h))
      (λ u h.
        let same : t ≡ u = cc (get_elem?-put_self i t s items at, h) in
        ap (λ (x : ItemState). x.closed) (sym same) ∙ ht)
  where
    ne : (j : ℕ) → j < i → j ≡ i → ⊥
    ne j lt e = absurd (omega (arith, lt, e))

close_state-Round :
    (i : ℕ) (status : ItemStatus) (r : Option ItemState) (o : Output)
    → get_elem? o.item_states i ≡ r
    → AllShown o
    → ClosedBelow i o.item_states
    → Round i o (close_state i status r o)
unfolding close_state
close_state-Round i status none o at shown below = record {
  shown = shown;
  below = below-suc i o.item_states below (λ s h. absurd (cc (at, h)));
  same_length = refl;
}
close_state-Round i status (some s) o at shown below = elim (Bool-cases s.closed) [
  | inl c ↦
      rw (c, close_state)
        (record {
          shown = shown;
          below = below-suc i o.item_states below (λ u h.
              let same : s ≡ u = cc (at, h) in ap (λ (x : ItemState). x.closed) (sym same) ∙ c);
          same_length = refl;
        })
  | inr c ↦
      rw (c, close_state)
        (let items = (close_open-Same i s status o).0 in
          record {
            shown = close_open-AllShown i s status o c at shown;
            below =
                rw items
                  (put_at-ClosedBelow i (closed_with status s) s o.item_states at refl below);
            same_length = rw items (length-put_at i (closed_with status s) o.item_states);
          })
]

pub close_from-Round :
    (n i : ℕ) (status : ItemStatus) (o : Output)
    → AllShown o
    → ClosedBelow i o.item_states
    → AllShown (close_from n i status o)
      × ClosedBelow (i + n) (close_from n i status o).item_states
      × (length (close_from n i status o).item_states ≡ length o.item_states)
unfolding close_from close_item
close_from-Round zero i status o shown below =
    (shown, subst (λ n. ClosedBelow n o.item_states) (omega arith) below, refl)
close_from-Round (suc n) i status o shown below =
    let r = close_state-Round i status (get_elem? o.item_states i) o refl shown below in
    let p = close_item i status o in
    let (shown', below', same) = close_from-Round n (suc i) status p r.shown r.below in
    (
      shown',
      subst (λ m. ClosedBelow m (close_from n (suc i) status p).item_states) (omega arith) below',
      same ∙ r.same_length,
    )

-- The items of a response, as a client keeps them when they are closed.
abbrev pub final_of : Item → Seen
final_of x = record { kind = x.kind; id = x.id; text = x.text; closed = true }

all_closed-seen :
    (items : List ItemState)
    → ClosedBelow (length items) items
    → (all_closed (map seen_of items) ≡ true) × (map seen_of items ≡ map final_of (output_of items))
all_closed-seen [] h = (refl, refl)
all_closed-seen (s ∷ items) h =
    let c = h 0 s (omega arith) refl in
    let (rest, same) = all_closed-seen items (λ j u lt at. h (suc j) u (omega (arith, lt)) at) in
    (rw (c, rest) refl, rw (c, same) refl)

emit_terminal :
    (es : List Seen) (r : Response) (o : Output)
    → all_closed es ≡ true
    → Shows es o
    → replay start (yield_event (terminal r) o).sent
      ≡ some (record { next = suc o.seq; phase = ended r; entries = es })
unfolding accept step
emit_terminal es r o c h =
    replay-append start o.sent (record { sequence_number = o.seq; body = terminal r })
    ∙ ap (λ v. then_accept v (record { sequence_number = o.seq; body = terminal r })) h
    ∙ rw (same_number o.seq, c) refl

-- The client saw an opening, and a last event for an outcome, with the items that it has itself, all of them closed.
abbrev pub IsComplete : Terminal → Output → Type 0
IsComplete out o =
    (r : Response) × (r.status ≡ out.status)
    × (r.incomplete_details ≡ out.reason)
    × (r.error ≡ error_of out.error)
    × (replay start o.sent
        ≡ some (record { next = o.seq; phase = ended r; entries = map final_of r.output }))

-- The client saw no last event, though all items are closed.
abbrev pub IsCut : Output → Type 0
IsCut o =
    (es : List Seen) × (all_closed es ≡ true)
    × (replay start o.sent ≡ some (record { next = o.seq; phase = running; entries = es }))

start_output-IsConsistent : (setup : Setup) → IsConsistent (start_output setup)
unfolding replay accept step
start_output-IsConsistent setup = record {
  shown = refl;
  reasonings = record { opened = λ c i e. absurd (cc e); apart = λ c d i e f. absurd (cc e) };
  texts = record { opened = λ c i e. absurd (cc e); apart = λ c d i e f. absurd (cc e) };
  calls = λ key i m. absurd m;
}

module _ (py : Python) (setup : Setup) where
  -- All items are closed before the last event.
  before_terminal :
      (s : Session) (status : ItemStatus)
      → IsConsistent s.out
      → let o = close_from (length s.out.item_states) 0 status s.out in
        AllShown o × ClosedBelow (length o.item_states) o.item_states
  before_terminal s status h =
      let n = length s.out.item_states in
      let o = close_from n 0 status s.out in
      let (shown, below, same) =
        close_from-Round n 0 status s.out h.shown (λ j u lt at. absurd (omega (arith, lt))) in
      (shown, subst (λ m. ClosedBelow m o.item_states) (omega (arith, same)) below)

  end_stream-IsComplete :
      (s : Session) (usage : Fields)
      → responses_usage py s.usage ≡ some usage
      → IsConsistent s.out
      → IsComplete (outcome py s) (end_stream py setup s)
  unfolding end_stream send_terminal
  end_stream-IsComplete s usage e h =
      let out = outcome py s in
      let o = close_from (length s.out.item_states) 0 (item_status out.status) s.out in
      let (shown, below) = before_terminal s (item_status out.status) h in
      let (closed, same) = all_closed-seen o.item_states below in
      let r = snapshot_ended setup s out o.item_states usage in
      rw e (
        r,
        refl,
        refl,
        refl,
        rw (← same) (emit_terminal (map seen_of o.item_states) r o closed shown),
      )

  end_stream-IsCut :
      (s : Session)
      → responses_usage py s.usage ≡ none
      → IsConsistent s.out
      → IsCut (end_stream py setup s)
  unfolding end_stream send_terminal
  end_stream-IsCut s e h =
      let out = outcome py s in
      let o = close_from (length s.out.item_states) 0 (item_status out.status) s.out in
      let (shown, below) = before_terminal s (item_status out.status) h in
      rw e (map seen_of o.item_states, (all_closed-seen o.item_states below).0, shown)

  abbrev pub last_session : List Upstream → Session
  last_session data_stream = take_stream py data_stream (start_session setup)

  -- Whatever the upstream sends, a client accepts every event of the stream: the numbers have no gap, the response is announced first, every item is added once, grows only while it is open and is closed once with the text that its parts add up to, and one last event follows when all are closed, with the status, reason and error of the outcome and the very items that the client has. The token counts of the upstream have to be such that they can be added.
  pub chat_stream_to_responses_stream-IsComplete :
      (data_stream : List Upstream) (usage : Fields)
      → responses_usage py (last_session data_stream).usage ≡ some usage
      → IsComplete
          (outcome py (last_session data_stream))
          (chat_stream_to_responses_stream py setup data_stream)
  unfolding chat_stream_to_responses_stream
  chat_stream_to_responses_stream-IsComplete data_stream usage e =
      end_stream-IsComplete (last_session data_stream) usage e
        (take_stream-Ok py data_stream (start_session setup) (start_output-IsConsistent setup))

  -- Where the token counts of the upstream cannot be added, or their details are no object, the client accepts every event too, but the stream breaks off with all its items closed and no last event.
  pub chat_stream_to_responses_stream-IsCut :
      (data_stream : List Upstream)
      → responses_usage py (last_session data_stream).usage ≡ none
      → IsCut (chat_stream_to_responses_stream py setup data_stream)
  unfolding chat_stream_to_responses_stream
  chat_stream_to_responses_stream-IsCut data_stream e =
      end_stream-IsCut (last_session data_stream) e
        (take_stream-Ok py data_stream (start_session setup) (start_output-IsConsistent setup))
