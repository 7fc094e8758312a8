-- ===== src/ToolHistory/Aligned.antt =====
-- providers/tool_history.py: where the tool messages of the result stand.
use buddy2api.Prelude.{
  ◌≡◌, refl, sym, ap, ◌∙◌, subst, Bool, true, false, true≢false, ◌&&◌, ◌||◌, Bool-cases, inl, inr,
  Option, none, some, List, [], ◌∷◌, ◌++◌, map, String, str_eq, str_eq_iff, All, arith,
  if◌then◌else◌, append_assoc, append-nil, All-append,
}
use buddy2api.Prelude.Texts.{str_in, str_eq_self}
use buddy2api.History.{
  Json, null, plain, str, arr, obj, Fields, no_fields, field, get, is_text, is_truthy,
}
use buddy2api.ToolHistory.{
  Python, calls_json, content_of, put, pop, surviving, emit_calls, emit_group, with_calls,
  as_user_note, tool_message, is_caller, is_tool, tool_id, call_ids, plain_message, Mode, outside,
  behind, close_mode, advance, take_next, repair_from, objects, repair_openai_tool_history,
}

get-put_self : (key : String) (v : Json) (d : Fields) → get key (put key v d) ≡ some v
get-put_self key v no_fields = rw (str_eq_self key) refl
get-put_self key v (field k j d) = elim (Bool-cases (str_eq k key)) [
  | inl t ↦ rw (t, t) refl
  | inr f ↦ rw (f, f) (get-put_self key v d)
]

get-put_other :
    (key other : String) (v : Json) (d : Fields)
    → str_eq key other ≡ false
    → get other (put key v d) ≡ get other d
get-put_other key other v no_fields h = rw h refl
get-put_other key other v (field k j d) h = elim (Bool-cases (str_eq k key)) [
  | inl t ↦
      let away : str_eq k other ≡ false = ap (λ s. str_eq s other) ((str_eq_iff k key).0 t) ∙ h in
      rw (t, away) refl
  | inr f ↦ rw f (ap (λ o. if str_eq k other then some j else o) (get-put_other key other v d h))
]

get-pop_other :
    (key other : String) (d : Fields)
    → str_eq key other ≡ false
    → get other (pop key d) ≡ get other d
get-pop_other key other no_fields h = refl
get-pop_other key other (field k j d) h = elim (Bool-cases (str_eq k key)) [
  | inl t ↦
      let away : str_eq k other ≡ false = ap (λ s. str_eq s other) ((str_eq_iff k key).0 t) ∙ h in
      rw (t, away) refl
  | inr f ↦ rw f (ap (λ o. if str_eq k other then some j else o) (get-pop_other key other d h))
]

abbrev pub has_calls : Fields → Bool
has_calls message = is_truthy (get "tool_calls" message)

-- Every tool message stands behind a message with calls, or behind another tool message; `after` tells whether one may come first.
abbrev pub IsAligned : Bool → List Fields → Type 0
IsAligned after [] = Unit
IsAligned after (x ∷ xs) =
    (is_tool x ≡ true → after ≡ true) × IsAligned (is_tool x || has_calls x) xs

any_start : (b : Bool) (xs : List Fields) → IsAligned false xs → IsAligned b xs
any_start b [] h = tt
any_start b (x ∷ xs) h = (λ t. absurd (true≢false (sym (h.0 t))), h.1)

abbrev NoTool : Fields → Type 0
NoTool x = is_tool x ≡ false

after_plain :
    (b : Bool) (xs ys : List Fields)
    → All (λ x. is_tool x ≡ false) xs
    → IsAligned false ys
    → IsAligned b (xs ++ ys)
after_plain b [] ys h k = any_start b ys k
after_plain b (x ∷ xs) ys h k =
    (λ t. absurd (true≢false (sym t ∙ h.0)), after_plain (is_tool x || has_calls x) xs ys h.1 k)

after_tools :
    (py : Python) (ms ys : List Fields)
    → ((b : Bool) → IsAligned b ys)
    → IsAligned true (map (tool_message py) ms ++ ys)
unfolding tool_message
after_tools py [] ys k = k true
after_tools py (m ∷ ms) ys k = (λ t. refl, after_tools py ms ys k)

note_plain :
    (py : Python) (ms : List Fields) → All (λ x. is_tool x ≡ false) (map (as_user_note py) ms)
unfolding as_user_note
note_plain py [] = tt
note_plain py (m ∷ ms) = (refl, note_plain py ms)

plain_message_plain : (py : Python) (m : Fields) → is_tool (plain_message py m) ≡ false
unfolding as_user_note
plain_message_plain py m = elim (Bool-cases (is_tool m)) [ inl t ↦ rw t refl | inr f ↦ rw f f ]

assistant_plain : (o : Option Json) → is_text o "assistant" ≡ true → is_text o "tool" ≡ false
assistant_plain none h = absurd (true≢false (sym h))
assistant_plain (some (str s)) h = ap (λ t. str_eq t "tool") ((str_eq_iff s "assistant").0 h)
assistant_plain (some null) h = absurd (true≢false (sym h))
assistant_plain (some (plain s)) h = absurd (true≢false (sym h))
assistant_plain (some (arr i)) h = absurd (true≢false (sym h))
assistant_plain (some (obj d)) h = absurd (true≢false (sym h))

two : (a b : Bool) → a && b ≡ true → a ≡ true
two a b h = ground arith

-- What the loops hold: an assistant message, and messages between that are no tool messages.
abbrev IsHeld : Mode → Type 0
IsHeld outside = Unit
IsHeld (behind message matches between) =
    (is_text (get "role" message) "assistant" ≡ true) × All (λ x. is_tool x ≡ false) between

module _ (py : Python) where
  carried_role :
      (message : Fields) (calls : List Fields)
      → get "role" (with_calls py message calls) ≡ get "role" message
  carried_role message calls =
      let bare = pop "toolCalls" message in
      get-put_other "tool_calls" "role" (calls_json calls)
        (put "content" (content_of py message) bare) refl
      ∙ get-put_other "content" "role" (content_of py message) bare refl
      ∙ get-pop_other "toolCalls" "role" message refl

  carried_calls :
      (message c : Fields) (calls : List Fields)
      → has_calls (with_calls py message (c ∷ calls)) ≡ true
  carried_calls message c calls = ap is_truthy (
      get-put_self "tool_calls" (calls_json (c ∷ calls))
        (put "content" (content_of py message) (pop "toolCalls" message)))

  dropped_role :
      (message : Fields)
      → get "role" (pop "tool_calls" (pop "toolCalls" message)) ≡ get "role" message
  dropped_role message =
      get-pop_other "tool_calls" "role" (pop "toolCalls" message) refl
      ∙ get-pop_other "toolCalls" "role" message refl

  emit_calls-IsAligned :
      (message : Fields) (matches between ys calls : List Fields)
      → is_text (get "role" message) "assistant" ≡ true
      → All (λ x. is_tool x ≡ false) between
      → IsAligned false ys
      → IsAligned false (emit_calls py message matches calls ++ (between ++ ys))
  emit_calls-IsAligned message matches between ys [] role apart h =
      let plain_role =
        ap (λ o. is_text o "tool") (dropped_role message)
        ∙ assistant_plain (get "role" message) role in
      (
        λ t. absurd (true≢false (sym t ∙ plain_role)),
        after_plain _ (map (as_user_note py) matches) (between ++ ys) (note_plain py matches)
            (after_plain false between ys apart h),
      )
  emit_calls-IsAligned message matches between ys (c ∷ calls) role apart h =
      let plain_role =
        ap (λ o. is_text o "tool") (carried_role message (c ∷ calls))
        ∙ assistant_plain (get "role" message) role in
      let starts : is_tool (with_calls py message (c ∷ calls))
            || has_calls (with_calls py message (c ∷ calls))
          ≡ true =
        either _ _ (carried_calls message c calls) in
      (
        λ t. absurd (true≢false (sym t ∙ plain_role)),
        subst (λ b. IsAligned b (map (tool_message py) matches ++ (between ++ ys))) (sym starts)
            (after_tools py matches (between ++ ys) (λ b. after_plain b between ys apart h)),
      )
    where
      either : (a b : Bool) → b ≡ true → a || b ≡ true
      either a b k = ground arith

  close_mode-IsAligned :
      (mode : Mode) (ys : List Fields)
      → IsHeld mode
      → IsAligned false ys
      → IsAligned false (close_mode py mode ++ ys)
  unfolding close_mode emit_group
  close_mode-IsAligned outside ys h k = k
  close_mode-IsAligned (behind message matches between) ys (role, apart) k =
      let calls = surviving py message matches in
      subst (IsAligned false) (sym (append_assoc (emit_calls py message matches calls) between ys))
        (emit_calls-IsAligned message matches between ys calls role apart k)

  -- A step keeps what the loops hold, and an aligned rest stays aligned behind what it gives out.
  abbrev IsStep : List Fields × Mode → Type 0
  IsStep (out, after) =
      IsHeld after × ((ys : List Fields) → IsAligned false ys → IsAligned false (out ++ ys))

  advance-IsStep : (next : Fields) (mode : Mode) → IsHeld mode → IsStep (advance py next mode)
  advance-IsStep next outside h = (
    tt,
    λ ys k. after_plain false (plain_message py next ∷ []) ys (plain_message_plain py next, tt) k,
  )
  advance-IsStep next (behind message matches between) (role, apart) =
      at (is_tool next && str_in (tool_id py next) (call_ids py message))
    where
      at :
          (b : Bool)
          → let r : List Fields × Mode =
              if b
              then ([], behind message (matches ++ next ∷ []) between)
              else ([], behind message matches (between ++ plain_message py next ∷ [])) in
            IsStep r
      at true = ((role, apart), λ ys k. k)
      at false = (
        (
          role,
          All-append (λ x. is_tool x ≡ false) between (plain_message py next ∷ []) apart
              (plain_message_plain py next, tt),
        ),
        λ ys k. k,
      )

  take_next-IsStep : (next : Fields) (mode : Mode) → IsHeld mode → IsStep (take_next py next mode)
  take_next-IsStep next mode h = at (is_caller py next) refl
    where
      at :
          (b : Bool)
          → is_caller py next ≡ b
          → let r : List Fields × Mode =
              if b then (close_mode py mode, behind next [] []) else advance py next mode in
            IsStep r
      at true e = ((two _ _ e, tt), λ ys k. close_mode-IsAligned mode ys h k)
      at false e = advance-IsStep next mode h

  aligned :
      (source : List Fields) (mode : Mode)
      → IsHeld mode
      → IsAligned false (repair_from py mode source)
  unfolding repair_from
  aligned [] mode h =
      subst (IsAligned false) (append-nil (close_mode py mode)) (close_mode-IsAligned mode [] h tt)
  aligned (next ∷ source) mode h =
      let r = take_next py next mode in
      let (held, gives) = take_next-IsStep next mode h in
      gives (repair_from py r.1 source) (aligned source r.1 held)

  -- In the repaired history every tool message stands directly behind a message that carries calls, or behind another tool message that
  -- does; none comes first.
  pub repair_openai_tool_history-IsAligned :
      (messages : List Json) → IsAligned false (repair_openai_tool_history py messages)
  unfolding repair_openai_tool_history
  repair_openai_tool_history-IsAligned messages = aligned (objects messages) outside tt
