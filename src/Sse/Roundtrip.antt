-- ===== src/Sse/Roundtrip.antt =====
-- Events written by `_json_sse_event` come back out of the decoder.
use mathlib.Core.List.{flat_map}
use buddy2api.Prelude.{
  ℕ, suc, ◌+◌, ◌≤◌, ◌≡◌, ◌≢◌, refl, ap, ◌∙◌, Bool, false, some, none, List, [], ◌∷◌, ◌++◌, length,
  append-nil, append_assoc, arith, All, All-append,
}
use buddy2api.Sse.{
  Bytes, Decoder, init, scan, drop_return, take_line, consume_line, check_buffer, drain, feed,
  data_prefix, line_feed, carriage_return,
}
use buddy2api.Sse.Chunks.{
  push, with_buffer, drain-none, drain-some, feed-run, checked_run, feed-append,
}

-- proxy.py, `_json_sse_event`, from the bytes that `json.dumps` has written.
unfoldable pub json_sse_event : Bytes → Bytes
json_sse_event text = data_prefix ++ (b' ' ∷ (text ++ line_feed ∷ line_feed ∷ []))

-- Neither end of line; `json.dumps` escapes both.
abbrev pub IsPlain : ℕ → Type 0
IsPlain b = (b ≢ line_feed) × (b ≢ carriage_return)

drop_return-plain : (l : Bytes) → All IsPlain l → drop_return l ≡ l
unfolding drop_return
drop_return-plain [] h = refl
drop_return-plain (b ∷ []) h = ground arith
drop_return-plain (b ∷ c ∷ bs) h = ap (λ l. b ∷ l) (drop_return-plain (c ∷ bs) h.1)

scan-plain :
    (final : Bool) (line bs rest : Bytes)
    → All IsPlain bs
    → scan final line (bs ++ line_feed ∷ rest) ≡ some (drop_return (line ++ bs), rest)
unfolding scan
scan-plain final line [] rest h = rw append-nil
scan-plain final line (b ∷ bs) rest h =
    ground (arith, scan-plain final (line ++ b ∷ []) bs rest h.1, append_assoc line (b ∷ []) bs)

take_line-plain :
    (bs rest : Bytes) → All IsPlain bs → take_line false (bs ++ line_feed ∷ rest) ≡ some (bs, rest)
unfolding take_line
take_line-plain bs rest h = ground (arith, scan-plain false [] bs rest h, drop_return-plain bs h)

module _ (cap : ℕ) where
  -- The decoder between the data line of `text` and what follows it.
  abbrev holding : Bytes → Bytes → Decoder
  holding text rest = record {
    parser_error = none;
    buffer = rest;
    data_lines = text ∷ [];
    event_bytes = length text + 1;
  }

  consume_data :
      (text rest : Bytes)
      → length text + 6 ≤ cap
      → consume_line cap (with_buffer init rest) (data_prefix ++ (b' ' ∷ text))
        ≡ (holding text rest, none)
  unfolding consume_line
  consume_data text rest h = ground arith

  consume_blank :
      (text rest : Bytes)
      → consume_line cap (holding text rest) [] ≡ (with_buffer init rest, some text)
  unfolding consume_line
  consume_blank text rest = refl

  drain-init : (n : ℕ) → drain cap false n init ≡ ([], init)
  unfolding take_line
  drain-init n = drain-none cap false n init refl

  drain-holding :
      (n : ℕ) (text : Bytes)
      → drain cap false (suc n) (holding text (line_feed ∷ [])) ≡ (text ∷ [], init)
  unfolding take_line
  drain-holding n text =
      rw
        (
          drain-some cap false n (holding text (line_feed ∷ [])) [] [] refl (rw consume_blank refl),
          consume_blank,
          drain-init,
        )
        refl

  check_buffer-init : check_buffer cap init ≡ init
  unfolding check_buffer
  check_buffer-init = ground arith

  -- A fresh decoder gives back the text of an event, and is fresh again.
  pub feed-json_sse_event :
      (text : Bytes)
      → All IsPlain text
      → length text + 6 ≤ cap
      → feed cap init (json_sse_event text) ≡ (text ∷ [], init)
  unfolding json_sse_event
  feed-json_sse_event text plain h =
      let line = data_prefix ++ (b' ' ∷ text) in
      let rest = line_feed ∷ [] in
      let buffer = json_sse_event text in
      let taken : take_line false buffer ≡ some (line, rest) =
        take_line-plain line rest
          (All-append IsPlain data_prefix (b' ' ∷ text) (omega arith) (omega arith, plain)) in
      rw
        (
          feed-run cap init buffer refl,
          drain-some cap false (length buffer) (push init buffer) line rest taken
              (rw consume_data refl),
          consume_data text rest h,
          drain-holding,
          check_buffer-init,
        )
        refl

  abbrev pub IsEventText : Bytes → Type 0
  IsEventText text = All IsPlain text × (length text + 6 ≤ cap)

  -- A stream of events, fed at once to a fresh decoder, gives back their texts in order.
  pub feed-flat_map :
      (texts : List Bytes)
      → All IsEventText texts
      → feed cap init (flat_map json_sse_event texts) ≡ (texts, init)
  unfolding flat_map
  feed-flat_map [] h =
      feed-run cap init [] refl
      ∙ ap (checked_run cap) (drain-init 1)
      ∙ ap (λ (d : Decoder). ([], d)) check_buffer-init
  feed-flat_map (t ∷ ts) h =
      let one = feed-json_sse_event t h.0.0 h.0.1 in
      let many =
        feed-append cap init (json_sse_event t) (flat_map json_sse_event ts) (rw one refl) in
      many ∙ rw (one, feed-flat_map ts h.1) refl
