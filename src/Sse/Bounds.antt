-- ===== src/Sse/Bounds.antt =====
-- What the decoder holds and emits is bounded by its limit, on every input.
use buddy2api.Prelude.{
  ℕ, zero, suc, ◌+◌, ◌≤◌, ◌<◌, ◌≡◌, Bool, true, false, Option, none, some, List, [], ◌∷◌, ◌++◌,
  length, length-append, arith, inl, inr, Bool-cases, Option-cases, All, All-append,
}
use buddy2api.Sse.{
  Bytes, Decoder, is_failed, fail, take_line, join_lines, dispatch, append_data, consume_field,
  consume_line, emit, drain, check_buffer, feed, flush, finish, strip_prefix, data_prefix,
  drop_space,
}
use buddy2api.Sse.Chunks.{with_buffer, push, drain-none, drain-some, drain-failed}

-- The bytes of the data lines, each with the line feed that joins it to the next.
abbrev pub payload_size : List Bytes → ℕ
payload_size [] = 0
payload_size (l ∷ ls) = length l + 1 + payload_size ls

payload_size-append :
    (ls ms : List Bytes) → payload_size (ls ++ ms) ≡ payload_size ls + payload_size ms
payload_size-append [] ms = omega arith
payload_size-append (l ∷ ls) ms = omega (arith, payload_size-append ls ms)

length-join_lines :
    (l : Bytes) (ls : List Bytes) → length (join_lines (l ∷ ls)) + 1 ≡ payload_size (l ∷ ls)
unfolding join_lines
length-join_lines l [] = omega arith
length-join_lines l (m ∷ ls) =
    omega (arith, length-append l (10 ∷ join_lines (m ∷ ls)), length-join_lines m ls)

module _ (cap : ℕ) where
  -- The counter is the size of what is held, and within the limit.
  pub record IsAccounted (d : Decoder) : Type 0 where
    pub counted : d.event_bytes ≡ payload_size d.data_lines
    pub within : d.event_bytes ≤ cap

  abbrev pub IsShort : Bytes → Type 0
  IsShort e = length e < cap

  abbrev EventIsShort : Option Bytes → Type 0
  EventIsShort none = Unit
  EventIsShort (some e) = IsShort e

  -- What one step of the decoder has done.
  abbrev Fair : Decoder × Option Bytes → Type 0
  Fair c = IsAccounted c.0 × EventIsShort c.1

  dispatch-Fair :
      (d : Decoder) (ls : List Bytes)
      → d.event_bytes ≡ payload_size ls
      → IsAccounted d
      → Fair (dispatch d ls)
  unfolding dispatch
  dispatch-Fair d [] e h = (h, tt)
  dispatch-Fair d (l ∷ ls) e h = (omega arith, omega (arith, length-join_lines l ls, h.within))

  append_data-IsAccounted :
      (d : Decoder) (f : Bytes) → IsAccounted d → IsAccounted (append_data cap d f)
  unfolding append_data fail
  append_data-IsAccounted d f h = ground (arith, payload_size-append d.data_lines (f ∷ []))

  consume_line-Fair : (d : Decoder) (line : Bytes) → IsAccounted d → Fair (consume_line cap d line)
  unfolding consume_line consume_field fail
  consume_line-Fair d [] h = dispatch-Fair d d.data_lines h.counted h
  consume_line-Fair d (b ∷ bs) h = elim (Option-cases (strip_prefix data_prefix (b ∷ bs))) [
    | inl e ↦ ground arith
    | inr (f, e) ↦ ground (arith, append_data-IsAccounted d (drop_space f) h)
  ]

  emit-All :
      (o : Option Bytes) (events : List Bytes)
      → EventIsShort o
      → All IsShort events
      → All IsShort (emit o events)
  emit-All none events h hs = hs
  emit-All (some e) events h hs = (h, hs)

  abbrev pub Bounded : List Bytes × Decoder → Type 0
  Bounded r = All IsShort r.0 × IsAccounted r.1

  drain-Bounded :
      (final : Bool) (n : ℕ) (d : Decoder) → IsAccounted d → Bounded (drain cap final n d)
  unfolding drain
  drain-Bounded final zero d h = (tt, h)
  drain-Bounded final (suc n) d h = elim (Option-cases (take_line final d.buffer)) [
    | inl e ↦ rw (drain-none cap final (suc n) d e) (tt, h)
    | inr (t, e) ↦
        let c = consume_line cap (with_buffer d t.1) t.0 in
        let fair : Fair c =
          consume_line-Fair (with_buffer d t.1) t.0
            (record { counted = h.counted; within = h.within }) in
        elim (Bool-cases (is_failed c.0)) [
          | inl bad ↦
              rw (drain-failed cap final n d t.0 t.1 e bad) (emit-All c.1 [] fair.1 tt, fair.0)
          | inr good ↦
              let ih = drain-Bounded final n c.0 fair.0 in
              rw (drain-some cap final n d t.0 t.1 e good)
                (emit-All c.1 (drain cap final n c.0).0 fair.1 ih.0, ih.1)
        ]
  ]

  check_buffer-IsAccounted : (d : Decoder) → IsAccounted d → IsAccounted (check_buffer cap d)
  unfolding check_buffer
  check_buffer-IsAccounted d h = ground arith

  check_buffer-buffer :
      (d : Decoder) → is_failed d ≡ false → length (check_buffer cap d).buffer ≤ cap
  unfolding check_buffer
  check_buffer-buffer d h = ground arith

  -- From a decoder whose counter is right, `feed` emits only events shorter than the limit and
  -- leaves a decoder whose counter is right and whose held data lines are within the limit.
  pub feed-Bounded : (d : Decoder) (chunk : Bytes) → IsAccounted d → Bounded (feed cap d chunk)
  unfolding feed
  feed-Bounded d chunk h = elim (Bool-cases (is_failed d)) [
    | inl bad ↦ rw (bad, feed) (tt, h)
    | inr good ↦
        let b =
          drain-Bounded false (suc (length (d.buffer ++ chunk))) (push d chunk)
            (record { counted = h.counted; within = h.within }) in
        rw (good, feed)
          (
            b.0,
            check_buffer-IsAccounted
                (drain cap false (suc (length (d.buffer ++ chunk))) (push d chunk)).1 b.1,
          )
  ]

  flush-Bounded : (d : Decoder) → IsAccounted d → Bounded (flush cap d)
  unfolding flush
  flush-Bounded d h =
      let f = dispatch-Fair d d.data_lines h.counted h in
      (emit-All (dispatch d d.data_lines).1 [] f.1 tt, f.0)

  -- The same for `finish`.
  pub finish-Bounded : (d : Decoder) → IsAccounted d → Bounded (finish cap d)
  unfolding finish
  finish-Bounded d h = elim (Bool-cases (is_failed d)) [
    | inl bad ↦ rw (bad, finish) (tt, h)
    | inr good ↦
        let r = drain cap true (suc (length d.buffer)) d in
        let b : Bounded r = drain-Bounded true (suc (length d.buffer)) d h in
        elim (Bool-cases (is_failed r.1)) [
          | inl bad ↦ rw (good, finish, bad) b
          | inr fine ↦
              let f = flush-Bounded r.1 b.1 in
              rw (good, finish, fine) (All-append IsShort r.0 (flush cap r.1).0 b.0 f.0, f.1)
        ]
  ]
