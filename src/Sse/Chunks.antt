-- ===== src/Sse/Chunks.antt =====
-- How a byte stream is cut into chunks does not matter.
use buddy2api.Prelude.{
  ℕ, zero, suc, ◌<◌, ◌≡◌, refl, sym, ap, ◌∙◌, Bool, true, false, Option, none, some, List, [], ◌∷◌,
  ◌++◌, length, length-append, append-nil, append_assoc, arith, inl, inr, Bool-cases, Option-cases,
}
use mathlib.Core.List.{flatten}
use mathlib.Core.Path.{◌≡⟨◌⟩◌, ◌∎}
use buddy2api.Sse.{
  Bytes, Decoder, is_failed, take_line, dispatch, consume_field, consume_line, emit, drain,
  check_buffer, feed, strip_prefix, data_prefix,
}
use buddy2api.Sse.Lines.{take_line-append, take_line-length}

abbrev pub push : Decoder → Bytes → Decoder
push d more = record d { buffer = d.buffer ++ more }

abbrev pub with_buffer : Decoder → Bytes → Decoder
with_buffer d b = record d { buffer = b }

module _ (cap : ℕ) where
  -- A line that is accepted leaves the buffer alone, and does not depend on it.
  consume_field-buffer :
      (d : Decoder) (a b : Bytes) (o : Option Bytes)
      → is_failed (consume_field cap (with_buffer d a) o).0 ≡ false
      → consume_field cap (with_buffer d b) o ≡ (
        with_buffer (consume_field cap (with_buffer d a) o).0 b,
        (consume_field cap (with_buffer d a) o).1,
      )
  unfolding consume_field
  consume_field-buffer d a b none h = refl
  consume_field-buffer d a b (some f) h = ground arith

  dispatch-buffer :
      (d : Decoder) (a b : Bytes) (ls : List Bytes)
      → dispatch (with_buffer d b) ls
        ≡ (with_buffer (dispatch (with_buffer d a) ls).0 b, (dispatch (with_buffer d a) ls).1)
  unfolding dispatch
  dispatch-buffer d a b [] = refl
  dispatch-buffer d a b (l ∷ ls) = refl

  pub consume_line-buffer :
      (d : Decoder) (a b line : Bytes)
      → is_failed (consume_line cap (with_buffer d a) line).0 ≡ false
      → consume_line cap (with_buffer d b) line ≡ (
        with_buffer (consume_line cap (with_buffer d a) line).0 b,
        (consume_line cap (with_buffer d a) line).1,
      )
  unfolding consume_line
  consume_line-buffer d a b [] h = dispatch-buffer d a b d.data_lines
  consume_line-buffer d a b (c ∷ cs) h =
      ground (arith, consume_field-buffer d a b (strip_prefix data_prefix (c ∷ cs)))

  dispatch-keeps : (d : Decoder) (ls : List Bytes) → (dispatch d ls).0.buffer ≡ d.buffer
  unfolding dispatch
  dispatch-keeps d [] = refl
  dispatch-keeps d (l ∷ ls) = refl

  consume_field-keeps :
      (d : Decoder) (o : Option Bytes)
      → is_failed (consume_field cap d o).0 ≡ false
      → (consume_field cap d o).0.buffer ≡ d.buffer
  unfolding consume_field
  consume_field-keeps d none h = refl
  consume_field-keeps d (some f) h = ground arith

  pub consume_line-keeps :
      (d : Decoder) (line : Bytes)
      → is_failed (consume_line cap d line).0 ≡ false
      → (consume_line cap d line).0.buffer ≡ d.buffer
  unfolding consume_line
  consume_line-keeps d [] h = dispatch-keeps d d.data_lines
  consume_line-keeps d (c ∷ cs) h =
      ground (arith, consume_field-keeps d (strip_prefix data_prefix (c ∷ cs)))

  -- One round of the loop, by its outcome.
  pub drain-none :
      (final : Bool) (n : ℕ) (d : Decoder)
      → take_line final d.buffer ≡ none
      → drain cap final n d ≡ ([], d)
  unfolding drain
  drain-none final zero d h = refl
  drain-none final (suc n) d h = rw (h, drain)

  pub drain-some :
      (final : Bool) (n : ℕ) (d : Decoder) (line rest : Bytes)
      → take_line final d.buffer ≡ some (line, rest)
      → let (d', event) = consume_line cap (with_buffer d rest) line in
        is_failed d' ≡ false
        → drain cap final (suc n) d
          ≡ (emit event (drain cap final n d').0, (drain cap final n d').1)
  unfolding drain
  drain-some final n d line rest h g = rw (h, drain, g)

  pub drain-failed :
      (final : Bool) (n : ℕ) (d : Decoder) (line rest : Bytes)
      → take_line final d.buffer ≡ some (line, rest)
      → let (d', event) = consume_line cap (with_buffer d rest) line in
        is_failed d' ≡ true → drain cap final (suc n) d ≡ (emit event [], d')
  unfolding drain
  drain-failed final n d line rest h g = rw (h, drain, g)

  -- Any fuel above the number of bytes that are left gives the same result.
  pub drain_fuel :
      (final : Bool) (n m : ℕ) (d : Decoder)
      → length d.buffer < n
      → length d.buffer < m
      → drain cap final n d ≡ drain cap final m d
  drain_fuel final zero m d h k = elim h [ ]
  drain_fuel final (suc n) zero d h k = elim k [ ]
  drain_fuel final (suc n) (suc m) d h k = elim (Option-cases (take_line final d.buffer)) [
    | inl e ↦ drain-none final (suc n) d e ∙ sym (drain-none final (suc m) d e)
    | inr (t, e) ↦
        let d' = (consume_line cap (with_buffer d t.1) t.0).0 in
        elim (Bool-cases (is_failed d')) [
          | inl bad ↦
              drain-failed final n d t.0 t.1 e bad ∙ sym (drain-failed final m d t.0 t.1 e bad)
          | inr good ↦
              let shorter = take_line-length final d.buffer t.0 t.1 e in
              let kept = consume_line-keeps (with_buffer d t.1) t.0 good in
              let same = drain_fuel final n m d' (rw kept (omega arith)) (rw kept (omega arith)) in
              drain-some final n d t.0 t.1 e good
              ∙ rw same (sym (drain-some final m d t.0 t.1 e good))
        ]
  ]

  -- What the loop gives on a buffer that has grown: the same events, then those of the rest.
  pub grown : List Bytes × Decoder → Bytes → ℕ → List Bytes × Decoder
  grown r more k = let next = drain cap false k (push r.1 more) in (r.0 ++ next.0, next.1)

  grown-emit :
      (o : Option Bytes) (events : List Bytes) (d : Decoder) (more : Bytes) (k : ℕ)
      → grown (emit o events, d) more k
        ≡ (emit o (grown (events, d) more k).0, (grown (events, d) more k).1)
  unfolding grown
  grown-emit none events d more k = refl
  grown-emit (some e) events d more k = refl

  -- The rest of the loop after one line.
  abbrev resume : ℕ → Decoder × Option Bytes → List Bytes × Decoder
  resume n c = let r = drain cap false n c.0 in (emit c.1 r.0, r.1)

  pub drain-push :
      (n m k : ℕ) (d : Decoder) (more : Bytes)
      → length d.buffer < n
      → length (d.buffer ++ more) < m
      → length ((drain cap false n d).1.buffer ++ more) < k
      → is_failed (drain cap false n d).1 ≡ false
      → drain cap false m (push d more) ≡ grown (drain cap false n d) more k
  unfolding grown
  drain-push zero m k d more h i j g = elim h [ ]
  drain-push (suc n) zero k d more h i j g = elim i [ ]
  drain-push (suc n) (suc m) k d more h i j g = elim (Option-cases (take_line false d.buffer)) [
    | inl e ↦
        rw (drain-none false (suc n) d e)
          (drain_fuel false (suc m) k (push d more) i (rw (drain-none false (suc n) d e) at j))
    | inr (t, e) ↦
        let d' = (consume_line cap (with_buffer d t.1) t.0).0 in
        let o = (consume_line cap (with_buffer d t.1) t.0).1 in
        elim (Bool-cases (is_failed d')) [
          | inl bad ↦
              let fine : is_failed d' ≡ false = rw (drain-failed false n d t.0 t.1 e bad) at g in
              cc (fine, bad)
          | inr good ↦
              let shorter = take_line-length false d.buffer t.0 t.1 e in
              let longer = take_line-append d.buffer more t.0 t.1 e in
              let kept = consume_line-keeps (with_buffer d t.1) t.0 good in
              let moved = consume_line-buffer d t.1 (t.1 ++ more) t.0 good in
              let sum = length-append d.buffer more in
              let rest_sum = length-append t.1 more in
              let fine : is_failed (drain cap false n d').1 ≡ false =
                rw (drain-some false n d t.0 t.1 e good) at g in
              let small : length (d'.buffer ++ more) < m = rw kept (omega arith) in
              let small' : length ((drain cap false n d').1.buffer ++ more) < k =
                rw (drain-some false n d t.0 t.1 e good) at j in
              let ih = drain-push n m k d' more (rw kept (omega arith)) small small' fine in
              let here =
                drain-some false m (push d more) t.0 (t.1 ++ more) longer (rw moved good) in
              let joined : push d' more ≡ with_buffer d' (t.1 ++ more) =
                ap (λ (b : Bytes). with_buffer d' (b ++ more)) kept in
              drain cap false (suc m) (push d more)
              ≡⟨ here ⟩ resume m (consume_line cap (with_buffer d (t.1 ++ more)) t.0)
              ≡⟨ ap (resume m) moved ⟩ resume m (with_buffer d' (t.1 ++ more), o)
              ≡⟨ ap (λ x. resume m (x, o)) (sym joined) ⟩ resume m (push d' more, o)
              ≡⟨ ap (λ (r : List Bytes × Decoder). (emit o r.0, r.1)) ih ⟩
                (
                  emit o (grown (drain cap false n d') more k).0,
                  (grown (drain cap false n d') more k).1,
                )
              ≡⟨ sym (grown-emit o (drain cap false n d').0 (drain cap false n d').1 more k) ⟩
                grown (emit o (drain cap false n d').0, (drain cap false n d').1) more k
              ≡⟨ ap (λ (r : List Bytes × Decoder). grown r more k)
                  (sym (drain-some false n d t.0 t.1 e good)) ⟩
                grown (drain cap false (suc n) d) more k ∎
        ]
  ]

  check_buffer-passes :
      (d : Decoder)
      → is_failed (check_buffer cap d) ≡ false
      → (check_buffer cap d ≡ d) × (is_failed d ≡ false)
  unfolding check_buffer
  check_buffer-passes d h = ground arith

  -- The loop that `feed` runs on a buffer.
  abbrev pub run : Decoder → List Bytes × Decoder
  run d = drain cap false (suc (length d.buffer)) d

  abbrev pub checked_run : List Bytes × Decoder → List Bytes × Decoder
  checked_run r = (r.0, check_buffer cap r.1)

  pub feed-run :
      (d : Decoder) (chunk : Bytes)
      → is_failed d ≡ false
      → feed cap d chunk ≡ ((run (push d chunk)).0, check_buffer cap (run (push d chunk)).1)
  unfolding feed
  feed-run d chunk h = rw (h, feed)

  feed-failed : (d : Decoder) (chunk : Bytes) → is_failed d ≡ true → feed cap d chunk ≡ ([], d)
  unfolding feed
  feed-failed d chunk h = rw (h, feed)

  -- Feeding a stream in two chunks, the first of which is accepted, gives the events and the
  -- decoder that feeding it at once gives, whatever the second chunk does.
  pub feed-append :
      (d : Decoder) (a b : Bytes)
      → is_failed (feed cap d a).1 ≡ false
      → let (events, d') = feed cap d a in
        let (more, d'') = feed cap d' b in feed cap d (a ++ b) ≡ (events ++ more, d'')
  unfolding grown
  feed-append d a b h = elim (Bool-cases (is_failed d)) [
    | inl bad ↦ let fine : is_failed d ≡ false = rw (feed-failed d a bad) at h in cc (bad, fine)
    | inr good ↦
        let d₁ = (run (push d a)).1 in
        let passed : is_failed (check_buffer cap d₁) ≡ false = rw (feed-run d a good) at h in
        let checked = check_buffer-passes d₁ passed in
        let joined : push (push d a) b ≡ push d (a ++ b) =
          ap (λ (l : Bytes). with_buffer d l) (append_assoc d.buffer a b) in
        let whole =
          drain-push (suc (length (push d a).buffer)) (suc (length (push (push d a) b).buffer))
            (suc (length (push d₁ b).buffer)) (push d a) b (omega arith) (omega arith) (omega arith)
            checked.1 in
        let first : feed cap d a ≡ ((run (push d a)).0, d₁) =
          feed-run d a good ∙ ap (λ x. ((run (push d a)).0, x)) checked.0 in
        let all : feed cap d (a ++ b) ≡ checked_run (run (push d (a ++ b))) =
          feed-run d (a ++ b) good in
        rw (first, feed-run d₁ b checked.1)
          (all ∙ ap (λ x. checked_run (run x)) (sym joined) ∙ ap checked_run whole)
  ]

  -- The loop of a caller that feeds every chunk of a response.
  unfoldable pub feed_all : Decoder → List Bytes → List Bytes × Decoder
  feed_all d [] = ([], d)
  feed_all d (chunk ∷ chunks) =
      let (events, d') = feed cap d chunk in
      let (more, d'') = feed_all d' chunks in (events ++ more, d'')

  feed_all-failed :
      (d : Decoder) (chunks : List Bytes)
      → is_failed d ≡ true
      → is_failed (feed_all d chunks).1 ≡ true
  unfolding feed_all
  feed_all-failed d [] h = h
  feed_all-failed d (chunk ∷ chunks) h = rw (feed-failed d chunk h) (feed_all-failed d chunks h)

  -- However a response is cut into chunks, a decoder that has not failed at its end has emitted the
  -- events, and is in the state, that the whole response fed at once gives.
  pub feed_all-flatten :
      (d : Decoder) (chunk : Bytes) (chunks : List Bytes)
      → is_failed (feed_all d (chunk ∷ chunks)).1 ≡ false
      → feed_all d (chunk ∷ chunks) ≡ feed cap d (chunk ++ flatten chunks)
  unfolding feed_all flatten
  feed_all-flatten d a [] h = rw (append-nil a, append-nil (feed cap d a).0) refl
  feed_all-flatten d a (b ∷ bs) h = elim (Bool-cases (is_failed (feed cap d a).1)) [
    | inl bad ↦ cc (h, feed_all-failed (feed cap d a).1 (b ∷ bs) bad)
    | inr good ↦
        ap (λ (r : List Bytes × Decoder). ((feed cap d a).0 ++ r.0, r.1))
          (feed_all-flatten (feed cap d a).1 b bs h)
        ∙ sym (feed-append d a (b ++ flatten bs) good)
  ]
