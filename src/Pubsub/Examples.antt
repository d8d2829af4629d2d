-- ===== src/Pubsub/Examples.antt =====
-- Runs of the channels at concrete inputs.
use one_open_broker.Prelude.{
  ◌+◌, ◌≡◌, refl, true, false, Str, codes, str_eq, length, false, List, [], ◌∷◌,
}
use one_open_broker.Dict.{get, put, remove, has, contains, add, discard}
use one_open_broker.Pubsub.State.{
  PubSub, new_pubsub, subscribers, subscribe, unsubscribe, unsubscribe_all, drop_sub, disconnect,
  publish, stats_of,
}
use one_open_broker.Pubsub.Fanout.{refusing, publish_accounts}
use one_open_broker.Pubsub.Spec.{
  Event, joins, parts, goes, lists, run, run_spec, Refines, channels_refine,
}
use one_open_broker.Pubsub.Symmetry.{IsSymmetric, subscribe-IsSymmetric, disconnect_lem}

abbrev news : Str
news = codes "news"

abbrev alice : Str
alice = codes "a"

abbrev two_listeners : PubSub
two_listeners = subscribe (codes "b") news (subscribe alice news new_pubsub)

pub new_pubsub-IsSymmetric : IsSymmetric new_pubsub
unfolding contains get
new_pubsub-IsSymmetric = record { same = λ c j. refl }

two_listeners-IsSymmetric : IsSymmetric two_listeners
two_listeners-IsSymmetric =
    subscribe-IsSymmetric (codes "b") news _
      (subscribe-IsSymmetric alice news _ new_pubsub-IsSymmetric)

disconnect_example :
    IsSymmetric (disconnect alice two_listeners)
    × ((channel : Str)
        → contains alice (subscribers channel (disconnect alice two_listeners)) ≡ false)
disconnect_example = disconnect_lem alice two_listeners two_listeners-IsSymmetric

publish_accounts_example :
    let (p', f) = publish news (str_eq alice) two_listeners in
    let old = stats_of (get news two_listeners.stats) in
    let new = stats_of (get news p'.stats) in
    (f.slow ≡ refusing (str_eq alice) (subscribers news two_listeners))
    × (f.delivered + length f.slow ≡ length (subscribers news two_listeners))
    × (p'.total_published ≡ two_listeners.total_published + 1)
    × (p'.total_fanout ≡ two_listeners.total_fanout + f.delivered)
    × (new.published ≡ old.published + 1)
    × (new.fanout ≡ old.fanout + f.delivered)
    × (new.slow_drops ≡ old.slow_drops + length f.slow)
publish_accounts_example = publish_accounts news (str_eq alice) two_listeners

-- An empty set stays behind in `_by_connection` for the connection that went away.
entry_stays : has alice (disconnect alice two_listeners).by_connection ≡ true
unfolding disconnect unsubscribe_all unsubscribe subscribe drop_sub get put remove has contains add
    discard str_eq
entry_stays = refl

abbrev history : List Event
history =
    joins alice news
    ∷ joins (codes "b") news
    ∷ lists
    ∷ parts alice news
    ∷ goes (codes "b")
    ∷ joins alice news
    ∷ []

channels_refine_example : Refines (run history new_pubsub) (run_spec history (λ c k. false))
channels_refine_example = channels_refine history
