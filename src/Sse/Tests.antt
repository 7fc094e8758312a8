-- ===== src/Sse/Tests.antt =====
-- The decoder at concrete inputs.
use buddy2api.Prelude.{◌≡◌, refl, false, List, [], ◌∷◌, ◌++◌, arith, All}
use mathlib.Core.List.{flat_map}
use buddy2api.Sse.{
  Bytes, init, is_failed, fail, take_line, consume_line, drain, check_buffer, feed, line_too_long,
}
use buddy2api.Sse.Chunks.{feed_all, feed-append}
use buddy2api.Sse.Bounds.{IsAccounted, Bounded, feed-Bounded}
use buddy2api.Sse.Roundtrip.{json_sse_event, IsEventText, feed-flat_map}

-- "data:a\r\ndata: b\n\n" cut inside the "\r\n", and the start of a further line
abbrev first_chunk : Bytes
first_chunk = b'd' ∷ b'a' ∷ b't' ∷ b'a' ∷ b':' ∷ b'a' ∷ 13 ∷ []

abbrev second_chunk : Bytes
second_chunk = 10 ∷ b'd' ∷ b'a' ∷ b't' ∷ b'a' ∷ b':' ∷ b' ' ∷ b'b' ∷ 10 ∷ 10 ∷ b'i' ∷ b'd' ∷ []

two_chunks :
    feed_all 64 init (first_chunk ∷ second_chunk ∷ [])
    ≡ ((b'a' ∷ 10 ∷ b'b' ∷ []) ∷ [], record init { buffer = b'i' ∷ b'd' ∷ [] })
unfolding feed_all feed drain take_line consume_line check_buffer
two_chunks = refl

-- An incomplete line past the limit fails the decoder; so the cut decides here: the same line,
-- complete, is accepted when its end of line arrives with it.
incomplete_line_fails : feed 6 init first_chunk ≡ ([], fail line_too_long init)
unfolding feed drain take_line consume_line check_buffer fail
incomplete_line_fails = refl

complete_line_passes : is_failed (feed 6 init (first_chunk ++ 10 ∷ [])).1 ≡ false
unfolding feed drain take_line consume_line check_buffer fail
complete_line_passes = refl

feed-append_example : feed 64 init (first_chunk ++ second_chunk) ≡ (
  (feed 64 init first_chunk).0 ++ (feed 64 (feed 64 init first_chunk).1 second_chunk).0,
  (feed 64 (feed 64 init first_chunk).1 second_chunk).1,
)
unfolding feed drain take_line consume_line check_buffer
feed-append_example = feed-append 64 init first_chunk second_chunk refl

fresh-IsAccounted : IsAccounted 64 init
fresh-IsAccounted = omega arith

feed-Bounded_example : Bounded 64 (feed 64 init (first_chunk ++ second_chunk))
feed-Bounded_example = feed-Bounded 64 init (first_chunk ++ second_chunk) fresh-IsAccounted

abbrev texts : List Bytes
texts = (b'{' ∷ b'}' ∷ []) ∷ (b'[' ∷ b']' ∷ []) ∷ []

texts-IsEventText : All (IsEventText 64) texts
texts-IsEventText = omega arith

feed-flat_map_example : feed 64 init (flat_map json_sse_event texts) ≡ (texts, init)
feed-flat_map_example = feed-flat_map 64 texts texts-IsEventText
