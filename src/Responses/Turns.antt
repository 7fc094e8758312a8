-- ===== src/Responses/Turns.antt =====
-- responses.py, `_chat_stream_to_responses_stream`: a new item, and a part of the reasoning, the text or a call of a choice, keep the generator consistent.
use buddy2api.Prelude.{ℕ, suc, ◌≡◌, refl, false, Option, none, some, [], ◌∷◌, ◌++◌, String, length}
use buddy2api.Prelude.Slots.{set_key, get_elem?-last}
use buddy2api.History.{Json}
use buddy2api.Responses.{Python, Kind, reasoning, text, tool, Item, ItemState}
use buddy2api.Responses.Stream.{
  CallKey, Output, release_reasoning, release_text, add_item, new_item, reasoning_state, text_state,
  say_reasoning, say_text, before_call, add_call, gen_item_id,
}
use buddy2api.Responses.Shown.{add_item-AllShown, part_added-AllShown}
use buddy2api.Responses.Owned.{IsOpen, IsConsistent, Refs-keep, IsOpen-append, Refs-add, Calls-add}
use buddy2api.Responses.Steps.{
  release_reasoning-IsConsistent, release_text-IsConsistent, append_text-IsConsistent,
}

-- A new item of a choice.
abbrev pub fresh_item : Item → ItemState
fresh_item x = record { item = x; closed = false }

IsOpen-fresh_item :
    (x : Item) (o : Output)
    → IsConsistent o
    → (l : Kind) (j : ℕ) → IsOpen l j o.item_states
    → IsOpen l j (o.item_states ++ fresh_item x ∷ [])
IsOpen-fresh_item x o h l j u = IsOpen-append l j (fresh_item x) o.item_states u

module _ (py : Python) where
  -- The state of the choice's reasoning is open, whether new or not.
  abbrev pub Ready : Kind → ℕ × Output → Type 0
  Ready k (i, o) = IsConsistent o × IsOpen k i o.item_states

  reasoning_state-Ready :
      (c : String) (r : Option ℕ) (o : Output)
      → o.reasoning_states c ≡ r
      → IsConsistent o
      → Ready reasoning (reasoning_state py c r o)
  unfolding reasoning_state
  reasoning_state-Ready c (some i) o e h = (h, h.reasonings.opened c i e)
  reasoning_state-Ready c none o e h =
      let p = release_text c (o.text_states c) o in
      let v = release_text-IsConsistent c (o.text_states c) o refl h in
      let x = new_item reasoning (gen_item_id py "rsn" p.ids) Json.null "" in
      let s = fresh_item x in
      let q : Output = record p {
        ids = suc p.ids;
        reasoning_states = set_key p.reasoning_states c (some (length p.item_states));
      } in
      (
        record {
          shown = part_added-AllShown x q v.shown;
          reasonings = Refs-add p.reasoning_states c s p.item_states refl v.reasonings;
          texts =
              Refs-keep text p.text_states p.item_states (p.item_states ++ s ∷ [])
                (IsOpen-fresh_item x p v text) v.texts;
          calls = λ key j m. IsOpen-fresh_item x p v tool j (v.calls key j m);
        },
        (s, get_elem?-last s p.item_states, refl, refl),
      )

  text_state-Ready :
      (c : String) (r : Option ℕ) (o : Output)
      → o.text_states c ≡ r
      → IsConsistent o
      → Ready text (text_state py c r o)
  unfolding text_state
  text_state-Ready c (some i) o e h = (h, h.texts.opened c i e)
  text_state-Ready c none o e h =
      let p = release_reasoning c (o.reasoning_states c) o in
      let v = release_reasoning-IsConsistent c (o.reasoning_states c) o refl h in
      let x = new_item text (gen_item_id py "msg" p.ids) Json.null "" in
      let s = fresh_item x in
      let q : Output = record p {
        ids = suc p.ids;
        text_states = set_key p.text_states c (some (length p.item_states));
      } in
      (
        record {
          shown = part_added-AllShown x q v.shown;
          reasonings =
              Refs-keep reasoning p.reasoning_states p.item_states (p.item_states ++ s ∷ [])
                (IsOpen-fresh_item x p v reasoning) v.reasonings;
          texts = Refs-add p.text_states c s p.item_states refl v.texts;
          calls = λ key j m. IsOpen-fresh_item x p v tool j (v.calls key j m);
        },
        (s, get_elem?-last s p.item_states, refl, refl),
      )

  pub say_reasoning-IsConsistent :
      (c t : String) (o : Output) → IsConsistent o → IsConsistent (say_reasoning py c t o)
  unfolding say_reasoning
  say_reasoning-IsConsistent c t o h =
      let r = reasoning_state py c (o.reasoning_states c) o in
      let (v, opened) = reasoning_state-Ready c (o.reasoning_states c) o refl h in
      append_text-IsConsistent r.0 t reasoning r.1 opened v

  pub say_text-IsConsistent :
      (c t : String) (o : Output) → IsConsistent o → IsConsistent (say_text py c t o)
  unfolding say_text
  say_text-IsConsistent c t o h =
      let r = text_state py c (o.text_states c) o in
      let (v, opened) = text_state-Ready c (o.text_states c) o refl h in
      append_text-IsConsistent r.0 t text r.1 opened v

  pub before_call-IsConsistent :
      (c : String) (o : Output) → IsConsistent o → IsConsistent (before_call py c o)
  unfolding before_call
  before_call-IsConsistent c o h =
      let p = release_reasoning c (o.reasoning_states c) o in
      release_text-IsConsistent c (p.text_states c) p refl
        (release_reasoning-IsConsistent c (o.reasoning_states c) o refl h)

  abbrev pub ReadyCall : Output → Output → Type 0
  ReadyCall o p = IsConsistent p × IsOpen tool (length o.item_states) p.item_states

  -- Whatever the ids are.
  added-ReadyCall :
      (key : CallKey) (x : Item) (n : ℕ) (o : Output)
      → x.kind ≡ tool
      → IsConsistent o
      → ReadyCall o (
          add_item x
            (record o { ids = n; tool_states = o.tool_states ++ (key, length o.item_states) ∷ [] }))
  added-ReadyCall key x n o k v =
      let s = fresh_item x in
      let q : Output = record o {
        ids = n;
        tool_states = o.tool_states ++ (key, length o.item_states) ∷ [];
      } in
      (
        record {
          shown = add_item-AllShown x q v.shown;
          reasonings =
              Refs-keep reasoning o.reasoning_states o.item_states (o.item_states ++ s ∷ [])
                (IsOpen-fresh_item x o v reasoning) v.reasonings;
          texts =
              Refs-keep text o.text_states o.item_states (o.item_states ++ s ∷ [])
                (IsOpen-fresh_item x o v text) v.texts;
          calls = Calls-add o.tool_states key s o.item_states refl k v.calls;
        },
        (s, get_elem?-last s o.item_states, k, refl),
      )

  pub add_call-ReadyCall :
      (key : CallKey) (id : Option Json) (name : String) (o : Output)
      → IsConsistent o
      → ReadyCall o (add_call py key id name o)
  unfolding add_call
  add_call-ReadyCall key (some id) name o h =
      added-ReadyCall key (new_item tool (gen_item_id py "fc" o.ids) id name) (suc o.ids) o refl h
  add_call-ReadyCall key none name o h =
      added-ReadyCall key
        (new_item tool (gen_item_id py "fc" (suc o.ids)) (Json.str (gen_item_id py "call" o.ids))
          name)
        (suc (suc o.ids)) o refl h
