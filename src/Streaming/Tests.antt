-- ===== src/Streaming/Tests.antt =====
-- A stream that is closed before it starts, and one whose iterator breaks.
use buddy2api.Prelude.{◌≡◌, refl, none, some, List, [], ◌∷◌}
use buddy2api.Streaming.{
  breaks, returns, ask_iterator, close_iterator, close_upstream, Use, next, gives, fails, close,
  use_all, use_once, anext, aclose, new_stream, close_stream, close_rest, respond,
}
use buddy2api.Streaming.Once.{own_calls, rest_calls, closing_calls, expected, use_all-calls}

closed_early :
    (use_all (close ∷ next gives ∷ []) (new_stream returns (some returns) none)).calls
    ≡ close_iterator ∷ close_upstream ∷ []
unfolding use_all new_stream close_stream close_rest
closed_early = refl

abbrev uses : List Use
uses = next gives ∷ next fails ∷ next gives ∷ close ∷ []

use_all-calls_example :
    (use_all uses (new_stream breaks (some returns) none)).calls
    ≡ expected (closing_calls breaks (some returns) none) uses
use_all-calls_example = use_all-calls uses breaks (some returns) none

uses_calls :
    expected (closing_calls breaks (some returns) none) uses
    ≡ ask_iterator ∷ ask_iterator ∷ close_iterator ∷ close_upstream ∷ []
unfolding expected own_calls rest_calls
uses_calls = refl

responded :
    (respond (next gives ∷ []) (new_stream breaks (some returns) none)).calls
    ≡ ask_iterator ∷ close_iterator ∷ close_upstream ∷ []
unfolding respond use_all use_once anext aclose new_stream close_stream close_rest
responded = refl
