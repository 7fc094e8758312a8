-- ===== src/Router/Sorted.antt =====
-- router.py, `account_queue`: the order of the queue.
use buddy2api.Prelude.{◌*◌, ◌≤◌, ◌≡◌, Option, String, leb→le, le→leb, true}
use buddy2api.Prelude.Int.{◌≤ℤ◌}
use buddy2api.Prelude.Order.{
  nat_order, int_order, ratio_order, descending, lex, lex-first, lex-second,
}
use buddy2api.Prelude.Sort.{sort_on-IsSortedOn}
use buddy2api.Routing.{priority_of, weight_of, requests_of}
use buddy2api.Routing.Ranking.{Pairs, Pairs-IsSortedOn, le_of, le_to, cross}
use buddy2api.Router.{ApiKey, Gateway, channel_order}
use buddy2api.Router.Queue.{
  Hop, rank, sticky_rank, queue_key, queue_order, rows, split_name, account_queue,
}

-- One hop may stand before another: it has the greater priority; at equal priority the earlier channel; on the same channel the greater
-- weight; at equal weight it is the sticky account; and where that does not decide, it has fewer requests per weight.
abbrev pub ComesBefore : Gateway → Hop → Hop → Type 0
ComesBefore g (c, a) (d, b) =
    (priority_of b ≤ℤ priority_of a)
    × (priority_of a ≤ℤ priority_of b
        → (rank (channel_order g) c ≤ rank (channel_order g) d)
          × (rank (channel_order g) d ≤ rank (channel_order g) c
              → (weight_of b ≤ weight_of a)
                × (weight_of a ≤ weight_of b
                    → (sticky_rank (g.preferred c) a.id ≤ sticky_rank (g.preferred d) b.id)
                      × (sticky_rank (g.preferred d) b.id ≤ sticky_rank (g.preferred c) a.id
                          → requests_of a * weight_of b ≤ requests_of b * weight_of a))))

module _ (g : Gateway) where
  key_before :
      (h k : Hop) → queue_order.leq (queue_key g h) (queue_key g k) ≡ true → ComesBefore g h k
  unfolding queue_key
  key_before (c, a) (d, b) h =
      let by_id = lex nat_order nat_order in
      let by_load = lex ratio_order by_id in
      let by_sticky = lex nat_order by_load in
      let by_weight = lex (descending nat_order) by_sticky in
      let by_rank = lex nat_order by_weight in
      let k = queue_key g (c, a) in
      let l = queue_key g (d, b) in
      (
        le_of (priority_of b) (priority_of a)
            (lex-first (descending int_order) by_rank k.0 l.0 k.1 l.1 h),
        λ p.
            let h1 =
              lex-second (descending int_order) by_rank k.0 l.0 k.1 l.1 h
                (le_to (priority_of a) (priority_of b) p) in
            (
              leb→le k.1.0 l.1.0 (lex-first nat_order by_weight k.1.0 l.1.0 k.1.1 l.1.1 h1),
              λ q.
                  let h2 =
                    lex-second nat_order by_weight k.1.0 l.1.0 k.1.1 l.1.1 h1
                      (le→leb l.1.0 k.1.0 q) in
                  (
                    leb→le l.1.1.0 k.1.1.0 (
                        lex-first (descending nat_order) by_sticky k.1.1.0 l.1.1.0 k.1.1.1 l.1.1.1
                          h2),
                    λ r.
                        let h3 =
                          lex-second (descending nat_order) by_sticky k.1.1.0 l.1.1.0 k.1.1.1
                            l.1.1.1 h2 (le→leb k.1.1.0 l.1.1.0 r) in
                        (
                          leb→le k.1.1.1.0 l.1.1.1.0 (
                              lex-first nat_order by_load k.1.1.1.0 l.1.1.1.0 k.1.1.1.1 l.1.1.1.1
                                h3),
                          λ s. cross a b (
                              lex-first ratio_order by_id k.1.1.1.1.0 l.1.1.1.1.0 k.1.1.1.1.1
                                l.1.1.1.1.1
                                (lex-second nat_order by_load k.1.1.1.0 l.1.1.1.0 k.1.1.1.1
                                  l.1.1.1.1 h3 (le→leb l.1.1.1.0 k.1.1.1.0 s))),
                        ),
                  ),
            ),
      )

  -- Of two hops of the queue the one that comes first has the greater or equal priority, then the earlier or same channel, then the
  -- greater or equal weight, then the sticky account, then the fewer or equal requests per weight, each where those before are equal.
  pub account_queue-Pairs :
      (key : Option ApiKey) (name : Option String)
      → Pairs (ComesBefore g) (account_queue g key name)
  unfolding account_queue
  account_queue-Pairs key name =
      Pairs-IsSortedOn queue_order (queue_key g) (ComesBefore g) _ key_before
        (sort_on-IsSortedOn queue_order (queue_key g) (rows g key (split_name name)))
