-- ===== src/Router/Trace.antt =====
-- router.py, `_walk_account_queue`: what the trace of a walk satisfies.
use buddy2api.Prelude.{ℕ, ◌+◌, ◌≡◌, refl, Bool, true, false, Option, some, List, [], ◌∷◌, ◌++◌}
use buddy2api.Router.{Gateway, provider_of}
use buddy2api.Router.Admission.{is_none}
use buddy2api.Router.Queue.{Hop}
use buddy2api.Router.Walk.{
  Error, Answer, answer, streaming, error, raises, Event, dispatched, opened, closed, noted,
  reserved, Step, done, next, leaves_open, hop_step, Dispatch, last_or, walk,
}

module _ (g : Gateway) (dispatch : Dispatch)
    (P : List Hop → List Event → Option Error → Answer × List Event → Type 0) where
  -- Induction along the walk: its end, a hop whose provider is gone, a hop that ends the walk and one that does not.
  pub walk_induct :
      ((past : List Event) (last : Option Error) → P [] past last (error (last_or last), past))
      → ((hop : Hop) (queue : List Hop) (past : List Event) (last : Option Error)
            (r : Answer × List Event)
          → is_none (provider_of g hop.0) ≡ true
          → P queue past last r
          → P (hop ∷ queue) past last r)
      → ((hop : Hop) (queue : List Hop) (past : List Event) (last : Option Error) (a : Answer)
            (events : List Event)
          → is_none (provider_of g hop.0) ≡ false
          → hop_step hop (dispatch past hop) ≡ done a events
          → P (hop ∷ queue) past last (a, past ++ events))
      → ((hop : Hop) (queue : List Hop) (past : List Event) (last : Option Error) (e : Error)
            (events : List Event) (r : Answer × List Event)
          → is_none (provider_of g hop.0) ≡ false
          → hop_step hop (dispatch past hop) ≡ next e events
          → P queue (past ++ events) (some e) r
          → P (hop ∷ queue) past last r)
      → (queue : List Hop) (past : List Event) (last : Option Error)
      → P queue past last (walk g dispatch queue past last)
  unfolding walk
  walk_induct end skip stop go [] past last = end past last
  walk_induct end skip stop go (hop ∷ queue) past last =
      choose (is_none (provider_of g hop.0)) refl (walk_induct end skip stop go queue)
    where
      settle :
          ((p : List Event) (l : Option Error) → P queue p l (walk g dispatch queue p l))
          → (s : Step) → hop_step hop (dispatch past hop) ≡ s
          → is_none (provider_of g hop.0) ≡ false
          → P (hop ∷ queue) past last (elim s [
            | done a events ↦ (a, past ++ events)
            | next e events ↦ walk g dispatch queue (past ++ events) (some e)
          ])
      settle rec (done a events) e f = stop hop queue past last a events f e
      settle rec (next x events) e f =
          go hop queue past last x events _ f e (rec (past ++ events) (some x))

      choose :
          (b : Bool)
          → is_none (provider_of g hop.0) ≡ b
          → ((p : List Event) (l : Option Error) → P queue p l (walk g dispatch queue p l))
          → P (hop ∷ queue) past last (elim b [
            | true ↦ walk g dispatch queue past last
            | false ↦ elim (hop_step hop (dispatch past hop)) [
              | done result events ↦ (result, past ++ events)
              | next e events ↦ walk g dispatch queue (past ++ events) (some e)
            ]
          ])
      choose true t rec = skip hop queue past last _ t (rec past last)
      choose false f rec = settle rec (hop_step hop (dispatch past hop)) refl f

-- How often an event of a kind stands in a trace.
abbrev pub tally : (Event → ℕ) → List Event → ℕ
tally w [] = 0
tally w (e ∷ events) = w e + tally w events

abbrev pub is_opened : Event → ℕ
is_opened (opened h) = 1
is_opened (dispatched h) = 0
is_opened (closed h) = 0
is_opened (noted h) = 0
is_opened reserved = 0

abbrev pub is_closed : Event → ℕ
is_closed (closed h) = 1
is_closed (dispatched h) = 0
is_closed (opened h) = 0
is_closed (noted h) = 0
is_closed reserved = 0

abbrev pub is_noted : Event → ℕ
is_noted (noted h) = 1
is_noted (dispatched h) = 0
is_noted (opened h) = 0
is_noted (closed h) = 0
is_noted reserved = 0

-- The streams that the caller still has to close, and the answers that are no errors.
abbrev pub handed_over : Answer → ℕ
handed_over (streaming h) = 1
handed_over (answer b) = 0
handed_over (error e) = 0
handed_over (raises m) = 0
handed_over (leaves_open h) = 0

-- The stream that an exception of the walk leaves open.
abbrev pub left_open : Answer → ℕ
left_open (leaves_open h) = 1
left_open (streaming h) = 0
left_open (answer b) = 0
left_open (error e) = 0
left_open (raises m) = 0

abbrev pub succeeded : Answer → ℕ
succeeded (streaming h) = 1
succeeded (answer b) = 1
succeeded (error e) = 0
succeeded (raises m) = 0
succeeded (leaves_open h) = 0

-- What the events of one step add up to.
abbrev Sound : Step → Type 0
Sound (next e events) =
    (tally is_opened events ≡ tally is_closed events) × (tally is_noted events ≡ 0)
Sound (done a events) =
    (tally is_opened events ≡ tally is_closed events + handed_over a + left_open a)
    × (tally is_noted events ≡ succeeded a)

-- Relative to the trace before: as many streams opened as closed, handed over or left open, and a note for each success.
abbrev Kept : List Event → Answer × List Event → Type 0
Kept past (a, trace) =
    (tally is_opened trace + tally is_closed past
      ≡ tally is_closed trace + tally is_opened past + handed_over a + left_open a)
    × (tally is_noted trace ≡ tally is_noted past + succeeded a)
