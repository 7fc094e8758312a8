-- ===== src/ToolHistory/Count.antt =====
-- providers/tool_history.py: the repair keeps every message.
use buddy2api.Prelude.{
  ℕ, suc, ◌+◌, ◌≡◌, refl, ap, Bool, true, false, ◌&&◌, List, [], ◌∷◌, ◌++◌, map, length,
  length-append, arith, if◌then◌else◌,
}
use buddy2api.Prelude.Texts.{str_in}
use buddy2api.History.{Json, Fields}
use buddy2api.ToolHistory.{
  Python, surviving, emit_calls, emit_group, as_user_note, tool_message, is_caller, is_tool,
  tool_id, call_ids, plain_message, Mode, outside, behind, close_mode, advance, take_next,
  repair_from, objects, repair_openai_tool_history,
}

length-map : (f : Fields → Fields) (xs : List Fields) → length (map f xs) ≡ length xs
length-map f [] = refl
length-map f (x ∷ xs) = ap suc (length-map f xs)

-- The messages that a mode holds.
abbrev held : Mode → ℕ
held outside = 0
held (behind message matches between) = suc (length matches + length between)

length-emit_calls :
    (py : Python) (message : Fields) (matches calls : List Fields)
    → length (emit_calls py message matches calls) ≡ suc (length matches)
length-emit_calls py message matches [] = ap suc (length-map (as_user_note py) matches)
length-emit_calls py message matches (c ∷ calls) = ap suc (length-map (tool_message py) matches)

length-close_mode : (py : Python) (mode : Mode) → length (close_mode py mode) ≡ held mode
unfolding close_mode emit_group
length-close_mode py outside = refl
length-close_mode py (behind message matches between) = omega (
  arith,
  length-append (emit_calls py message matches (surviving py message matches)) between,
  length-emit_calls py message matches (surviving py message matches),
)

-- A step gives out or holds one message more.
abbrev Grows : ℕ → List Fields × Mode → Type 0
Grows n (out, after) = length out + held after ≡ suc n

advance-Grows :
    (py : Python) (next : Fields) (mode : Mode) → Grows (held mode) (advance py next mode)
advance-Grows py next outside = refl
advance-Grows py next (behind message matches between) =
    at (is_tool next && str_in (tool_id py next) (call_ids py message))
  where
    at :
        (b : Bool)
        → let r : List Fields × Mode =
            if b
            then ([], behind message (matches ++ next ∷ []) between)
            else ([], behind message matches (between ++ plain_message py next ∷ [])) in
          Grows (suc (length matches + length between)) r
    at true = omega (arith, length-append matches (next ∷ []))
    at false = omega (arith, length-append between (plain_message py next ∷ []))

take_next-Grows :
    (py : Python) (next : Fields) (mode : Mode) → Grows (held mode) (take_next py next mode)
take_next-Grows py next mode = at (is_caller py next)
  where
    at :
        (b : Bool)
        → let r : List Fields × Mode =
            if b then (close_mode py mode, behind next [] []) else advance py next mode in
          Grows (held mode) r
    at true = omega (arith, length-close_mode py mode)
    at false = advance-Grows py next mode

length-repair_from :
    (py : Python) (source : List Fields) (mode : Mode)
    → length (repair_from py mode source) ≡ held mode + length source
unfolding repair_from
length-repair_from py [] mode = omega (arith, length-close_mode py mode)
length-repair_from py (next ∷ source) mode =
    let r = take_next py next mode in
    omega (
      arith,
      length-append r.0 (repair_from py r.1 source),
      length-repair_from py source r.1,
      take_next-Grows py next mode,
    )

-- The repaired history has a message for every object of the given one: none is lost and none is made.
pub length-repair_openai_tool_history :
    (py : Python) (messages : List Json)
    → length (repair_openai_tool_history py messages) ≡ length (objects messages)
unfolding repair_openai_tool_history
length-repair_openai_tool_history py messages =
    omega (arith, length-repair_from py (objects messages) outside)
