-- ===== src/Sse.antt =====
-- proxy.py, `_SSEEventDecoder`: complete server-sent events out of arbitrary chunks of bytes.
-- Bytes are natural numbers. A decoder that has failed keeps its error and nothing else.
pub mod Lines
pub mod Chunks
pub mod Bounds
pub mod Roundtrip
mod Tests
use buddy2api.Prelude.{
  ℕ, zero, suc, ◌+◌, ◌*◌, ◌^◌, Bool, true, false, not, ◌&&◌, Option, none, some, List, [], ◌∷◌,
  ◌++◌, length, ltb, ◌==◌, if◌then◌else◌,
}

abbrev pub Bytes : Type 0
Bytes = List ℕ

abbrev pub line_feed : ℕ
line_feed = 10

abbrev pub carriage_return : ℕ
carriage_return = 13

pub data ParserError : Type 0 where
  line_too_long event_too_long : ParserError

pub record Decoder : Type 0 where
  pub parser_error : Option ParserError
  pub buffer : Bytes
  pub data_lines : List Bytes
  pub event_bytes : ℕ

abbrev pub init : Decoder
init = record { parser_error = none; buffer = []; data_lines = []; event_bytes = 0 }

abbrev pub is_failed : Decoder → Bool
is_failed d = elim d.parser_error [ none ↦ false | some _ ↦ true ]

unfoldable pub fail : ParserError → Decoder → Decoder
fail e d = record { parser_error = some e; buffer = []; data_lines = []; event_bytes = 0 }

-- `line[:-1] if line.endswith(b"\r") else line`
pub drop_return : Bytes → Bytes
drop_return [] = []
drop_return (b ∷ []) = if b == carriage_return then [] else b ∷ []
drop_return (b ∷ c ∷ bs) = b ∷ drop_return (c ∷ bs)

-- What a carriage return ends: one at the end of the buffer waits for the byte after it.
abbrev pub at_return : Bool → Bytes → Bytes → Option (Bytes × Bytes)
at_return final line [] = if final then some (line, []) else none
at_return final line (b ∷ rest) =
    if b == line_feed then some (line, rest) else some (line, b ∷ rest)

-- The loop of `_take_line`; `line` is `self._buffer[:index]`.
pub scan : Bool → Bytes → Bytes → Option (Bytes × Bytes)
unfolding drop_return
scan final line [] = none
scan final line (b ∷ rest) =
    if b == line_feed
    then some (drop_return line, rest)
    else if b == carriage_return
    then at_return final line rest
    else scan final (line ++ b ∷ []) rest

-- After the loop: at the end of the stream what is left is a line.
abbrev pub last_line : Bool → Bytes → Option (Bytes × Bytes)
last_line true (b ∷ bs) = some (b ∷ bs, [])
last_line _ _ = none

-- `_take_line`, with the rest of the buffer.
pub take_line : Bool → Bytes → Option (Bytes × Bytes)
unfolding scan
take_line final buffer = elim (scan final [] buffer) [
  | some r ↦ some r
  | none ↦ last_line final buffer
]

-- `b"\n".join(lines)`
pub join_lines : List Bytes → Bytes
join_lines [] = []
join_lines (l ∷ []) = l
join_lines (l ∷ m ∷ ls) = l ++ line_feed ∷ join_lines (m ∷ ls)

-- `line[len(prefix):]` where `line.startswith(prefix)`
abbrev pub strip_prefix : Bytes → Bytes → Option Bytes
strip_prefix [] bs = some bs
strip_prefix (p ∷ ps) [] = none
strip_prefix (p ∷ ps) (b ∷ bs) = if p == b then strip_prefix ps bs else none

abbrev pub drop_space : Bytes → Bytes
drop_space [] = []
drop_space (b ∷ bs) = if b == b' ' then bs else b ∷ bs

-- b"data:"
abbrev pub data_prefix : Bytes
data_prefix = b'd' ∷ b'a' ∷ b't' ∷ b'a' ∷ b':' ∷ []

-- The event that a blank line ends.
pub dispatch : Decoder → List Bytes → Decoder × Option Bytes
unfolding join_lines
dispatch d [] = (d, none)
dispatch d (l ∷ ls) = (record d { data_lines = []; event_bytes = 0 }, some (join_lines (l ∷ ls)))

abbrev pub emit : Option Bytes → List Bytes → List Bytes
emit none events = events
emit (some event) events = event ∷ events

module _ (max_event_bytes : ℕ) where
  pub append_data : Decoder → Bytes → Decoder
  unfolding fail
  append_data d data_bytes =
      let total = d.event_bytes + (length data_bytes + 1) in
      if ltb max_event_bytes total
      then fail event_too_long d
      else record d { data_lines = d.data_lines ++ data_bytes ∷ []; event_bytes = total }

  pub consume_field : Decoder → Option Bytes → Decoder × Option Bytes
  unfolding append_data
  consume_field d none = (d, none)
  consume_field d (some field) = (append_data d (drop_space field), none)

  -- `_consume_line`
  pub consume_line : Decoder → Bytes → Decoder × Option Bytes
  unfolding fail dispatch consume_field
  consume_line d [] = dispatch d d.data_lines
  consume_line d (b ∷ bs) =
      if ltb max_event_bytes (length (b ∷ bs))
      then (fail line_too_long d, none)
      else consume_field d (strip_prefix data_prefix (b ∷ bs))

  -- The loop of `feed` and of `finish`; `Chunks.drain_fuel` shows that more fuel than bytes suffices.
  pub drain : Bool → ℕ → Decoder → List Bytes × Decoder
  drain final zero d = ([], d)
  drain final (suc fuel) d = elim (take_line final d.buffer) [
    | none ↦ ([], d)
    | some (line, rest) ↦
        let (d', event) = consume_line (record d { buffer = rest }) line in
        elim (is_failed d') [
          | true ↦ (emit event [], d')
          | false ↦ let (events, d'') = drain final fuel d' in (emit event events, d'')
        ]
  ]

  -- The limit on a line that is still incomplete.
  pub check_buffer : Decoder → Decoder
  unfolding fail
  check_buffer d =
      if not (is_failed d) && ltb max_event_bytes (length d.buffer) then fail line_too_long d else d

  pub feed : Decoder → Bytes → List Bytes × Decoder
  unfolding drain check_buffer
  feed d chunk = elim (is_failed d) [
    | true ↦ ([], d)
    | false ↦
        let buffer = d.buffer ++ chunk in
        let (events, d') = drain false (suc (length buffer)) (record d { buffer = buffer }) in
        (events, check_buffer d')
  ]

  -- The lines that the end of the stream completes, as one more event.
  pub flush : Decoder → List Bytes × Decoder
  unfolding dispatch
  flush d = let (d', event) = dispatch d d.data_lines in (emit event [], d')

  pub finish : Decoder → List Bytes × Decoder
  unfolding drain flush
  finish d = elim (is_failed d) [
    | true ↦ ([], d)
    | false ↦
        let (events, d') = drain true (suc (length d.buffer)) d in
        elim (is_failed d') [
          | true ↦ (events, d')
          | false ↦ let (last, d'') = flush d' in (events ++ last, d'')
        ]
  ]

-- `_MAX_SSE_EVENT_BYTES`
abbrev pub max_sse_event_bytes : ℕ
max_sse_event_bytes = 8 * 1024 * 1024
