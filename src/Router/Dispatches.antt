-- ===== src/Router/Dispatches.antt =====
-- router.py, `_walk_account_queue`: which hops a walk dispatches, and in which order.
use buddy2api.Prelude.{
  ◌≡◌, refl, ap, ◌∙◌, Bool, true, false, not, List, [], ◌∷◌, ◌++◌, append_assoc,
}
use buddy2api.Prelude.Member.{keep}
use buddy2api.Router.{Gateway, provider_of}
use buddy2api.Router.Admission.{is_none}
use buddy2api.Router.Queue.{Hop}
use buddy2api.Router.Walk.{
  Answer, Event, dispatched, opened, closed, noted, reserved, Step, done, next, answer, streaming,
  error, raises, leaves_open, Dispatch,
}

-- The hops that a trace dispatches, oldest first.
abbrev pub dispatches : List Event → List Hop
dispatches [] = []
dispatches (dispatched hop ∷ events) = hop ∷ dispatches events
dispatches (opened hop ∷ events) = dispatches events
dispatches (closed hop ∷ events) = dispatches events
dispatches (noted hop ∷ events) = dispatches events
dispatches (reserved ∷ events) = dispatches events

dispatches-append : (xs ys : List Event) → dispatches (xs ++ ys) ≡ dispatches xs ++ dispatches ys
dispatches-append [] ys = refl
dispatches-append (dispatched hop ∷ xs) ys = ap (λ l. hop ∷ l) (dispatches-append xs ys)
dispatches-append (opened hop ∷ xs) ys = dispatches-append xs ys
dispatches-append (closed hop ∷ xs) ys = dispatches-append xs ys
dispatches-append (noted hop ∷ xs) ys = dispatches-append xs ys
dispatches-append (reserved ∷ xs) ys = dispatches-append xs ys

-- A success, or an exception.
abbrev pub settles : Answer → Bool
settles (error e) = false
settles (answer b) = true
settles (streaming h) = true
settles (raises m) = true
settles (leaves_open h) = true

-- A step dispatches its own hop once, and a step that ends the walk is a success or raises.
abbrev Once : Hop → Step → Type 0
Once hop (next e events) = dispatches events ≡ hop ∷ []
Once hop (done a events) = (dispatches events ≡ hop ∷ []) × (settles a ≡ true)

module _ (g : Gateway) (dispatch : Dispatch) where
  -- The hops whose provider is there.
  abbrev pub live : Hop → Bool
  live hop = not (is_none (provider_of g hop.0))

  -- What a walk adds to the dispatches is the front of the queue's live hops, and all of them where it fails.
  abbrev Follows : List Hop → List Event → Answer × List Event → Type 0
  Follows queue past (a, trace) =
      (rest : List Hop) × (dispatches trace ++ rest ≡ dispatches past ++ keep live queue)
      × (settles a ≡ false → rest ≡ [])

  grown :
      (hop : Hop) (past events : List Event) (tail : List Hop)
      → dispatches events ≡ hop ∷ []
      → dispatches (past ++ events) ++ tail ≡ dispatches past ++ hop ∷ tail
  grown hop past events tail e =
      ap (λ l. l ++ tail) (dispatches-append past events ∙ ap (λ l. dispatches past ++ l) e)
      ∙ append_assoc (dispatches past) (hop ∷ []) tail
