-- ===== src/Streaming.antt =====
-- streaming.py: `close_stream` and `ClosingStream`, which owns an iterator and what it reads from.
-- What the iterator, the upstream and the callback do when they are called is given; `calls` records each call of them.
pub mod Once
mod Tests
use buddy2api.Prelude.{Bool, true, false, Option, none, some, List, [], ◌∷◌, ◌++◌, if◌then◌else◌}

-- How an `aclose` ends: there is none, it returns, it raises an Exception, it outlasts the five seconds, or it raises another BaseException.
pub data Closing : Type 0 where
  no_aclose returns raises times_out breaks : Closing

pub data Call : Type 0 where
  ask_iterator close_iterator close_upstream call_on_close : Call

-- What a call leaves to its caller; `raised` is an exception that goes on.
pub data CallResult : Type 0 where
  returned stopped raised : CallResult
  yielded : CallResult

-- What the iterator gives for `__anext__`.
pub data IteratorAnswer : Type 0 where
  gives fails : IteratorAnswer

-- What comes after the iterator: `on_close`, else the upstream, else nothing. The closings are those of the iterator and of the upstream; the callback may raise.
pub record ClosingStream : Type 0 where
  pub iterator : Closing
  pub upstream : Option Closing
  pub on_close : Option CallResult
  pub closed : Bool
  pub calls : List Call

-- `close_stream`: an Exception is logged, a BaseException goes on.
unfoldable pub close_stream : Closing → Call → List Call × CallResult
close_stream no_aclose call = ([], returned)
close_stream breaks call = (call ∷ [], raised)
close_stream _ call = (call ∷ [], returned)

-- The `finally` part.
unfoldable pub close_rest : Option CallResult → Option Closing → List Call × CallResult
unfolding close_stream
close_rest (some r) upstream = (call_on_close ∷ [], r)
close_rest none (some u) = close_stream u close_upstream
close_rest none none = ([], returned)

-- An exception of the `finally` part replaces the one of the body.
abbrev pub both : CallResult → CallResult → CallResult
both raised b = raised
both a b = b

unfoldable pub aclose : ClosingStream → ClosingStream × CallResult
unfolding close_stream close_rest
aclose s =
    let (first, a) = close_stream s.iterator close_iterator in
    let (second, b) = close_rest s.on_close s.upstream in
    if s.closed
    then (s, returned)
    else (record s { closed = true; calls = s.calls ++ (first ++ second) }, both a b)

-- `__anext__`
unfoldable pub anext : IteratorAnswer → ClosingStream → ClosingStream × CallResult
unfolding aclose
anext step s = elim s.closed [
  | true ↦ (s, stopped)
  | false ↦
      let asked : ClosingStream = record s { calls = s.calls ++ ask_iterator ∷ [] } in
      elim step [ gives ↦ (asked, yielded) | fails ↦ ((aclose asked).0, raised) ]
]

-- What the consumer does; a cancellation is an `anext` that fails.
pub data Use : Type 0 where
  next : IteratorAnswer → Use
  close : Use

unfoldable pub use_once : Use → ClosingStream → ClosingStream
unfolding aclose anext
use_once (next step) s = (anext step s).0
use_once close s = (aclose s).0

unfoldable pub use_all : List Use → ClosingStream → ClosingStream
unfolding use_once
use_all [] s = s
use_all (u ∷ us) s = use_all us (use_once u s)

-- `ClosingStream(iterator, upstream=..., on_close=...)`
unfoldable pub new_stream : Closing → Option Closing → Option CallResult → ClosingStream
new_stream iterator upstream on_close = record {
  iterator = iterator;
  upstream = upstream;
  on_close = on_close;
  closed = false;
  calls = [];
}

-- `ClosingStreamingResponse.__call__`: whatever the server does with the body before it returns or raises, the body is closed.
unfoldable pub respond : List Use → ClosingStream → ClosingStream
unfolding use_all use_once
respond us s = use_once close (use_all us s)
