-- ===== src/Router/Routable.antt =====
-- router.py: a channel that serves a plain request is one that the catalog advertises.
use buddy2api.Prelude.{
  ◌≡◌, refl, Bool, true, ◌&&◌, ◌||◌, Option, none, List, [], ◌∷◌, String, arith,
}
use buddy2api.Prelude.Member.{In, In-keep_of}
use buddy2api.Routing.{Account, channel_pool}
use buddy2api.Routing.Gate.{In-channel_pool}
use buddy2api.Router.{ApiKey, Gateway, channel_order}
use buddy2api.Router.Queue.{account_queue, has_some, is_routable, routable_channel_ids}
use buddy2api.Router.Queued.{In-account_queue}

some_of : (x : Account) (xs : List Account) → In x xs → has_some xs ≡ true
some_of x [] i = absurd i
some_of x (y ∷ xs) i = refl

left : (a b : Bool) → a ≡ true → (a || b) ≡ true
left a b h = ground arith

-- Every channel of the unfiltered queue, which the management page ranks, is routable.
pub account_queue-routable_channel_ids :
    (g : Gateway) (key : Option ApiKey) (c : String) (a : Account)
    → In (c, a) (account_queue g key none)
    → In c (routable_channel_ids g)
unfolding routable_channel_ids
account_queue-routable_channel_ids g key c a i =
    let (free, routable, ready) = (In-account_queue g key none c a).0 i in
    let pool = channel_pool g.cache [] g.accounts c in
    In-keep_of (is_routable g) c (channel_order g) free.0 (
      left (has_some pool)
        (has_some (g.exempt_models c) && has_some (channel_pool g.cache (c ∷ []) g.accounts c))
        (some_of a pool ((In-channel_pool g.cache [] g.accounts c a).1 routable)))
