-- ===== src/Responses/Grouped.antt =====
-- responses.py, `responses_to_chat`: the calls of a request, gathered into the messages between the other ones.
use buddy2api.Prelude.{
  ◌≡◌, refl, ap, ◌∙◌, Bool, true, false, ◌&&◌, inl, inr, Bool-cases, some, List, [], ◌∷◌, ◌++◌,
  append_assoc, if◌then◌else◌, arith,
}
use buddy2api.History.{Json, str, arr, Items, Fields, get, to_list, of_list, is_text, is_truthy}
use buddy2api.Responses.Reading.{assign}
use buddy2api.Responses.Request.{
  is_call, calls_of, plain_role, flush_calls, group_calls, item_messages, input_messages,
}
use buddy2api.ReasoningControls.Keys.{get-assign_self}
use buddy2api.Responses.{Python}

-- What a conversation says: its messages, and the calls that stand in them.
pub data Piece : Type 0 where
  said : Fields → Piece
  called : Json → Piece

abbrev pub calls_said : List Json → List Piece
calls_said [] = []
calls_said (c ∷ cs) = called c ∷ calls_said cs

-- With what is done to the messages that are no calls.
abbrev pub piece_of : (Fields → Fields) → Fields → List Piece
piece_of f m = if is_call m then calls_said (calls_of (get "tool_calls" m)) else said (f m) ∷ []

abbrev pub pieces : (Fields → Fields) → List Fields → List Piece
pieces f [] = []
pieces f (m ∷ ms) = piece_of f m ++ pieces f ms

abbrev pub as_is : Fields → Fields
as_is m = m

calls_said-append : (cs ds : List Json) → calls_said (cs ++ ds) ≡ calls_said cs ++ calls_said ds
calls_said-append [] ds = refl
calls_said-append (c ∷ cs) ds = ap (λ l. called c ∷ l) (calls_said-append cs ds)

to_list-of_list : (js : List Json) → to_list (of_list js) ≡ js
to_list-of_list [] = refl
to_list-of_list (j ∷ js) = ap (λ l. j ∷ l) (to_list-of_list js)

pieces-flush_calls :
    (pending : List Json) (ms : List Fields)
    → pieces as_is (flush_calls pending ms) ≡ calls_said pending ++ pieces as_is ms
pieces-flush_calls [] ms = refl
pieces-flush_calls (c ∷ cs) ms =
    ap (λ l. (called c ∷ calls_said l) ++ pieces as_is ms) (to_list-of_list cs)

-- A message that is no call is none under its other role.
plain_role_said : (m : Fields) → is_call m ≡ false → is_call (plain_role m) ≡ false
plain_role_said m h = elim (Bool-cases (is_text (get "role" m) "developer")) [
  | inl t ↦ rw t (
      ap
        (λ r.
          is_text r "assistant" && is_truthy (get "tool_calls" (assign "role" (str "system") m)))
        (get-assign_self "role" (str "system") m))
  | inr f ↦ rw f h
]

pieces-group_calls :
    (pending : List Json) (ms : List Fields)
    → pieces as_is (group_calls pending ms) ≡ calls_said pending ++ pieces plain_role ms
unfolding group_calls
pieces-group_calls pending [] = pieces-flush_calls pending []
pieces-group_calls pending (m ∷ ms) = elim (Bool-cases (is_call m)) [
  | inl t ↦
      rw (t, group_calls)
        (pieces-group_calls (pending ++ calls_of (get "tool_calls" m)) ms
          ∙ ap (λ l. l ++ pieces plain_role ms)
              (calls_said-append pending (calls_of (get "tool_calls" m)))
          ∙ append_assoc (calls_said pending) (calls_said (calls_of (get "tool_calls" m)))
              (pieces plain_role ms))
  | inr f ↦
      rw (f, group_calls)
        (pieces-flush_calls pending (plain_role m ∷ group_calls [] ms)
          ∙ rw (plain_role_said m f)
              (ap (λ l. calls_said pending ++ said (plain_role m) ∷ l) (pieces-group_calls [] ms)))
]

-- The messages of a request say what its items say one by one, every call once and everything in order; only the role developer becomes system.
pub pieces-input_messages :
    (py : Python) (items : Items)
    → pieces as_is (input_messages py (some (arr items)))
      ≡ pieces plain_role (item_messages py (to_list items))
unfolding input_messages
pieces-input_messages py items = pieces-group_calls [] (item_messages py (to_list items))

-- Two messages with calls never stand next to each other.
abbrev pub starts_call : List Fields → Bool
starts_call [] = false
starts_call (m ∷ ms) = is_call m

abbrev pub Apart : List Fields → Type 0
Apart [] = Unit
Apart (m ∷ ms) = ((is_call m && starts_call ms) ≡ false) × Apart ms

no_call : (a b : Bool) → a ≡ false → (a && b) ≡ false
no_call a b h = ground arith

no_next : (a b : Bool) → b ≡ false → (a && b) ≡ false
no_next a b h = ground arith

flush_calls-Apart :
    (pending : List Json) (ms : List Fields)
    → starts_call ms ≡ false
    → Apart ms
    → Apart (flush_calls pending ms)
flush_calls-Apart [] ms h k = k
flush_calls-Apart (c ∷ cs) ms h k = (no_next true (starts_call ms) h, k)

group_calls-Apart : (pending : List Json) (ms : List Fields) → Apart (group_calls pending ms)
unfolding group_calls
group_calls-Apart pending [] = flush_calls-Apart pending [] refl tt
group_calls-Apart pending (m ∷ ms) = elim (Bool-cases (is_call m)) [
  | inl t ↦ rw (t, group_calls) (group_calls-Apart (pending ++ calls_of (get "tool_calls" m)) ms)
  | inr f ↦
      rw (f, group_calls)
        (flush_calls-Apart pending (plain_role m ∷ group_calls [] ms) (plain_role_said m f) (
          no_call (is_call (plain_role m)) (starts_call (group_calls [] ms)) (plain_role_said m f),
          group_calls-Apart [] ms,
        ))
]

-- Among the messages that the items of a request become, two messages with calls never stand next to each other, so the results that follow belong to one turn.
pub input_messages-Apart :
    (py : Python) (items : Items) → Apart (input_messages py (some (arr items)))
unfolding input_messages
input_messages-Apart py items = group_calls-Apart [] (item_messages py (to_list items))
