-- ===== src/Responses/Client.antt =====
-- What a client of the Responses API expects of a stream of events: numbers without a gap, the two opening events, items that are added, grow and are closed once each with the text that they grew to, and one last event when all are closed.
use Prim.Native.String.{◌++◌ as ◌+++◌}
use buddy2api.Prelude.{
  ℕ, suc, ◌≡◌, refl, Bool, true, false, not, ◌&&◌, Option, none, some, List, [], ◌∷◌, ◌++◌, String,
  str_eq, ◌==◌, if◌then◌else◌, length,
}
use buddy2api.Prelude.Slots.{get_elem?, put_at}
use buddy2api.Responses.{
  Kind, reasoning, text, tool, Response, Body, created, started, item_added, part_added, delta,
  text_done, part_done, item_done, terminal, StreamEvent,
}

-- An item, as the events show it; names and states of calls may change without an event.
pub record Seen : Type 0 where
  pub kind : Kind
  pub id : String
  pub text : String
  pub closed : Bool

pub data Phase : Type 0 where
  silent announced running : Phase
  ended : Response → Phase

pub record View : Type 0 where
  pub next : ℕ
  pub phase : Phase
  pub entries : List Seen

abbrev pub same_kind : Kind → Kind → Bool
same_kind reasoning reasoning = true
same_kind text text = true
same_kind tool tool = true
same_kind _ _ = false

-- The event is about an item that is open.
abbrev pub is_about : Kind → String → Seen → Bool
is_about k id e = not e.closed && (same_kind k e.kind && str_eq id e.id)

abbrev pub when_fits :
    Kind → String → Option Seen → (Seen → Option (List Seen)) → Option (List Seen)
when_fits k id none f = none
when_fits k id (some e) f = if is_about k id e then f e else none

abbrev pub all_closed : List Seen → Bool
all_closed [] = true
all_closed (e ∷ es) = e.closed && all_closed es

-- The items after an event of the main phase; `none` is a breach of the protocol.
unfoldable pub see : List Seen → Body → Option (List Seen)
see es (item_added i x) =
    if i == length es
    then some (es ++ record { kind = x.kind; id = x.id; text = x.text; closed = false } ∷ [])
    else none
see es (part_added k id i) = when_fits k id (get_elem? es i) (λ e. some es)
see es (delta k id i t) =
    when_fits k id (get_elem? es i) (λ e. some (put_at i (record e { text = e.text +++ t }) es))
see es (text_done k id i t) =
    when_fits k id (get_elem? es i) (λ e. if str_eq t e.text then some es else none)
see es (part_done k id i t) =
    when_fits k id (get_elem? es i) (λ e. if str_eq t e.text then some es else none)
see es (item_done i x) =
    when_fits x.kind x.id (get_elem? es i)
      (λ e. if str_eq x.text e.text then some (put_at i (record e { closed = true }) es) else none)
see es _ = none

abbrev pub of_items : ℕ → Option (List Seen) → Option View
of_items n none = none
of_items n (some es) = some (record { next = n; phase = running; entries = es })

unfoldable pub step : Phase → ℕ → List Seen → Body → Option View
unfolding see
step silent n es (created r) = some (record { next = n; phase = announced; entries = es })
step announced n es (started r) = some (record { next = n; phase = running; entries = es })
step running n es (terminal r) =
    if all_closed es then some (record { next = n; phase = ended r; entries = es }) else none
step running n es b = of_items n (see es b)
step _ n es b = none

unfoldable pub accept : View → StreamEvent → Option View
unfolding step
accept v e =
    if e.sequence_number == v.next then step v.phase (suc v.next) v.entries e.body else none

abbrev pub start : View
start = record { next = 0; phase = silent; entries = [] }

unfoldable pub replay : View → List StreamEvent → Option View
unfolding accept
replay v [] = some v
replay v (e ∷ es) = elim (accept v e) [ none ↦ none | some w ↦ replay w es ]

abbrev pub then_accept : Option View → StreamEvent → Option View
then_accept none e = none
then_accept (some v) e = accept v e

pub replay-append :
    (v : View) (es : List StreamEvent) (e : StreamEvent)
    → replay v (es ++ e ∷ []) ≡ then_accept (replay v es) e
unfolding replay
replay-append v [] e = last (accept v e)
  where
    last : (o : Option View) → elim o [ none ↦ none | some w ↦ some w ] ≡ o
    last none = refl
    last (some w) = refl
replay-append v (d ∷ es) e = cases (accept v d) (λ w. replay-append w es e)
  where
    cases :
        (o : Option View)
        → ((w : View) → replay w (es ++ e ∷ []) ≡ then_accept (replay w es) e)
        → elim o [ none ↦ none | some w ↦ replay w (es ++ e ∷ []) ]
          ≡ then_accept (elim o [ none ↦ none | some w ↦ replay w es ]) e
    cases none h = refl
    cases (some w) h = h w
