-- ===== src/Streaming/Once.antt =====
-- streaming.py, `ClosingStream`: all that it owns is closed once, in order, whatever the consumer does.
use buddy2api.Prelude.{
  ◌≡◌, refl, sym, ap, ◌∙◌, Bool, true, false, Option, none, some, List, [], ◌∷◌, ◌++◌, append_assoc,
  append-nil,
}
use buddy2api.Streaming.{
  Closing, no_aclose, returns, raises, times_out, breaks, Call, ask_iterator, close_iterator,
  close_upstream, call_on_close, CallResult, gives, fails, ClosingStream, close_stream, close_rest,
  aclose, anext, Use, next, close, use_once, use_all, new_stream,
}

-- Whoever has an `aclose` is asked for it once.
unfoldable pub own_calls : Closing → Call → List Call
own_calls no_aclose call = []
own_calls _ call = call ∷ []

unfoldable pub rest_calls : Option Closing → Option CallResult → List Call
unfolding own_calls
rest_calls upstream (some r) = call_on_close ∷ []
rest_calls (some u) none = own_calls u close_upstream
rest_calls none none = []

-- The calls that close what the stream owns: first the iterator, then the callback or the upstream.
abbrev pub closing_calls : Closing → Option Closing → Option CallResult → List Call
closing_calls iterator upstream on_close =
    own_calls iterator close_iterator ++ rest_calls upstream on_close

close_stream-own_calls : (c : Closing) (call : Call) → (close_stream c call).0 ≡ own_calls c call
unfolding close_stream own_calls
close_stream-own_calls no_aclose call = refl
close_stream-own_calls returns call = refl
close_stream-own_calls raises call = refl
close_stream-own_calls times_out call = refl
close_stream-own_calls breaks call = refl

close_rest-rest_calls :
    (upstream : Option Closing) (on_close : Option CallResult)
    → (close_rest on_close upstream).0 ≡ rest_calls upstream on_close
unfolding close_rest rest_calls
close_rest-rest_calls upstream (some r) = refl
close_rest-rest_calls (some u) none = close_stream-own_calls u close_upstream
close_rest-rest_calls none none = refl

-- The calls that the uses of an open stream make, said without its state: one question for each `next` until the first that fails, or until the first `close`, and the closing calls there.
unfoldable pub expected : List Call → List Use → List Call
expected ending [] = []
expected ending (next gives ∷ us) = ask_iterator ∷ expected ending us
expected ending (next fails ∷ us) = ask_iterator ∷ ending
expected ending (close ∷ us) = ending

module _ (iterator : Closing) (upstream : Option Closing) (on_close : Option CallResult) where
  abbrev stream_at : Bool → List Call → ClosingStream
  stream_at closed calls = record {
    iterator = iterator;
    upstream = upstream;
    on_close = on_close;
    closed = closed;
    calls = calls;
  }

  -- A closed stream makes no call.
  closed_calls :
      (us : List Use) (calls : List Call) → (use_all us (stream_at true calls)).calls ≡ calls
  unfolding use_all use_once anext aclose
  closed_calls [] calls = refl
  closed_calls (next step ∷ us) calls = closed_calls us calls
  closed_calls (close ∷ us) calls = closed_calls us calls

  abbrev ending : List Call
  ending = closing_calls iterator upstream on_close

  aclose_open :
      (calls : List Call) → (aclose (stream_at false calls)).0 ≡ stream_at true (calls ++ ending)
  unfolding aclose
  aclose_open calls =
      ap (λ c. stream_at true (calls ++ (c ++ (close_rest on_close upstream).0)))
        (close_stream-own_calls iterator close_iterator)
      ∙ ap (λ c. stream_at true (calls ++ (own_calls iterator close_iterator ++ c)))
          (close_rest-rest_calls upstream on_close)

  -- What follows the closing of an open stream makes no call.
  after_aclose :
      (us : List Use) (calls : List Call)
      → (use_all us (aclose (stream_at false calls)).0).calls ≡ calls ++ ending
  after_aclose us calls =
      ap (λ t. (use_all us t).calls) (aclose_open calls) ∙ closed_calls us (calls ++ ending)

  open_calls :
      (us : List Use) (calls : List Call)
      → (use_all us (stream_at false calls)).calls ≡ calls ++ expected ending us
  unfolding use_all use_once anext expected
  open_calls [] calls = sym (append-nil calls)
  open_calls (next gives ∷ us) calls =
      open_calls us (calls ++ ask_iterator ∷ [])
      ∙ append_assoc calls (ask_iterator ∷ []) (expected ending us)
  open_calls (next fails ∷ us) calls =
      after_aclose us (calls ++ ask_iterator ∷ []) ∙ append_assoc calls (ask_iterator ∷ []) ending
  open_calls (close ∷ us) calls = after_aclose us calls

-- Whatever a consumer does with a new stream, its iterator is asked once for each `next` up to the first that fails or the first `close`; there the iterator is closed, then the callback is called or else the upstream closed, once each even if the iterator's close raises or nothing was asked before; and no call follows.
pub use_all-calls :
    (us : List Use) (iterator : Closing) (upstream : Option Closing) (on_close : Option CallResult)
    → (use_all us (new_stream iterator upstream on_close)).calls
      ≡ expected (closing_calls iterator upstream on_close) us
unfolding new_stream
use_all-calls us iterator upstream on_close = open_calls iterator upstream on_close us []
