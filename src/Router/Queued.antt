-- ===== src/Router/Queued.antt =====
-- router.py, `account_queue`: which accounts stand in the queue.
use buddy2api.Prelude.{
  ◌≡◌, refl, sym, ap, subst, Bool, true, false, not, ◌&&◌, Option, List, String, ◌==◌, ◌↔◌, arith,
}
use buddy2api.Prelude.Member.{
  In, keep, In-keep, In-keep_of, In-map, In-map_of, In-flat_map, In-flat_map_of, In-sort_on,
  In-sort_on_of,
}
use buddy2api.Routing.{Account, channel_pool}
use buddy2api.Routing.Gate.{IsRoutable, In-channel_pool}
use buddy2api.Router.{ApiKey, Gateway, provider_of, channel_order, pinned_channel}
use buddy2api.Router.Admission.{is_none}
use buddy2api.Router.Queue.{
  Hop, fits, serves_name, is_open, is_ready, exempt_for, hops_of, rows, queue_order, queue_key,
  split_name, account_queue,
}

both : (a b : Bool) → a && b ≡ true → (a ≡ true) × (b ≡ true)
both a b h = ground arith

both_of : (a b : Bool) → a ≡ true → b ≡ true → a && b ≡ true
both_of a b h k = ground arith

negated : (b : Bool) → not b ≡ true → b ≡ false
negated b h = ground arith

negated_of : (b : Bool) → b ≡ false → not b ≡ true
negated_of b h = ground arith

module _ (g : Gateway) (key : Option ApiKey) (name : Option (Option String × String)) where
  -- A channel that the request may use.
  abbrev pub IsOpen : String → Type 0
  IsOpen c =
      In c (channel_order g)
      × (fits (pinned_channel key) c ≡ true)
      × (serves_name g key name c ≡ true)
      × (is_none (provider_of g c) ≡ false)

  -- An account that a request may spend now.
  abbrev pub IsReady : Account → Type 0
  IsReady a = (a.id == 0 ≡ false) × (g.cooling a.id ≡ false)

  abbrev pub IsQueued : String → Account → Type 0
  IsQueued c a = IsOpen c × IsRoutable g.cache (exempt_for g name) g.accounts c a × IsReady a

  opened : (c : String) → In c (keep (is_open g key name) (channel_order g)) ↔ IsOpen c
  opened c = (
    λ i.
        let (there, ok) = In-keep (is_open g key name) c (channel_order g) i in
        let (locked, rest) =
          both (fits (pinned_channel key) c)
            (serves_name g key name c && not (is_none (provider_of g c))) ok in
        let (serves, has) =
          both (serves_name g key name c) (not (is_none (provider_of g c))) rest in
        (there, locked, serves, negated (is_none (provider_of g c)) has),
    λ (there, locked, serves, has). In-keep_of (is_open g key name) c (channel_order g) there (
        both_of (fits (pinned_channel key) c)
          (serves_name g key name c && not (is_none (provider_of g c))) locked
          (both_of (serves_name g key name c) (not (is_none (provider_of g c))) serves
            (negated_of (is_none (provider_of g c)) has))),
  )

  ready : (a : Account) → (is_ready g a ≡ true) ↔ IsReady a
  ready a = (
    λ h.
        let (id, warm) = both (not (a.id == 0)) (not (g.cooling a.id)) h in
        (negated (a.id == 0) id, negated (g.cooling a.id) warm),
    λ (id, warm).
        both_of (not (a.id == 0)) (not (g.cooling a.id)) (negated_of (a.id == 0) id)
          (negated_of (g.cooling a.id) warm),
  )

  In-hops_of :
      (d c : String) (a : Account)
      → In (c, a) (hops_of g (exempt_for g name) d)
        ↔ ((d ≡ c) × IsRoutable g.cache (exempt_for g name) g.accounts c a × IsReady a)
  In-hops_of d c a =
      let exempt = exempt_for g name in
      let pool : String → List Account = channel_pool g.cache exempt g.accounts in
      let hop : Account → Hop = λ account. (d, account) in
      (
        λ i.
            let (b, l, e) = In-map hop (c, a) (keep (is_ready g) (pool d)) i in
            let (pooled, ok) = In-keep (is_ready g) b (pool d) l in
            let same_channel : d ≡ c = ap (λ h. h.0) e in
            let same_account : b ≡ a = ap (λ h. h.1) e in
            (
              same_channel,
              subst (λ x. IsRoutable g.cache exempt g.accounts x a) same_channel
                  (subst (λ x. IsRoutable g.cache exempt g.accounts d x) same_account
                    ((In-channel_pool g.cache exempt g.accounts d b).0 pooled)),
              subst IsReady same_account ((ready b).0 ok),
            ),
        λ (e, routable, ok).
            subst (λ x. In (x, a) (hops_of g exempt d)) e
              (In-map_of hop a (keep (is_ready g) (pool d)) (
                In-keep_of (is_ready g) a (pool d)
                  ((In-channel_pool g.cache exempt g.accounts d a).1
                    (subst (λ x. IsRoutable g.cache exempt g.accounts x a) (sym e) routable))
                  ((ready a).1 ok))),
      )

  In-rows : (c : String) (a : Account) → In (c, a) (rows g key name) ↔ IsQueued c a
  unfolding rows
  In-rows c a =
      let hops = hops_of g (exempt_for g name) in
      let channels = keep (is_open g key name) (channel_order g) in
      (
        λ i.
            let (d, j, k) = In-flat_map hops (c, a) channels i in
            let (e, routable, ok) = (In-hops_of d c a).0 k in
            (subst IsOpen e ((opened d).0 j), routable, ok),
        λ (free, routable, ok).
            In-flat_map_of hops (c, a) c channels ((opened c).1 free)
              ((In-hops_of c c a).1 (refl, routable, ok)),
      )

-- The queue holds exactly the accounts that the request may spend: on an enabled channel that the key may use and that
-- serves the name, in the channel's pool (active and not proved to be out of quota, unless the name is exempt there), with a row in the table, and not cooling down.
pub In-account_queue :
    (g : Gateway) (key : Option ApiKey) (name : Option String) (c : String) (a : Account)
    → In (c, a) (account_queue g key name) ↔ IsQueued g key (split_name name) c a
unfolding account_queue
In-account_queue g key name c a =
    let all = rows g key (split_name name) in
    (
      λ i.
          (In-rows g key (split_name name) c a).0
            (In-sort_on queue_order (queue_key g) (c, a) all i),
      λ q.
          In-sort_on_of queue_order (queue_key g) (c, a) all
            ((In-rows g key (split_name name) c a).1 q),
    )
