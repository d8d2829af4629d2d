-- ===== src/Broker/Departure.antt =====
-- What the server keeps of a connection that it dropped.
use one_open_broker.Prelude.{
  ℕ, ◌-◌, ◌≡◌, ◌≢◌, ◌∙◌, refl, ap, true, false, Option, none, some, Str, str_eq_refl, arith,
  Option-cases, inl, inr,
}
use one_open_broker.Dict.{Dict, get, remove, has, contains, get-remove, has-remove}
use one_open_broker.Consumers.State.{Consumer, Manager, disconnect_connection}
use one_open_broker.Consumers.Departure.{Reached, disconnect_leaves_none}
use one_open_broker.Pubsub.State.{subscribers, disconnect}
use one_open_broker.Pubsub.Symmetry.{IsSymmetric, disconnect_lem}
use one_open_broker.Monitoring.Metrics.{Metrics, on_disconnect}
use one_open_broker.Broker.State.{Handler, manager_of, with_manager, on_runtime}
use one_open_broker.Broker.Server.{Server, count, dropped, drop}

dropped-some :
    (x : Manager × Option ℕ) (h : Handler) (n : ℕ)
    → x.1 ≡ some n
    → dropped x h ≡ count on_disconnect (on_runtime (with_manager x.0) h)
unfolding dropped
dropped-some (m, none) h n e = cc
dropped-some (m, some k) h n e = refl

connections-on_disconnect : (s : Metrics) → (on_disconnect s).connections ≡ s.connections - 1
unfolding on_disconnect
connections-on_disconnect s = ground arith

-- What is left of the handler when the connection has been taken out of the channels.
abbrev left_by : Str → Server → Handler
left_by id s =
    on_runtime (λ rt. record rt { pubsub = disconnect id rt.pubsub })
      (record s.handler { senders = remove id s.handler.senders })

drop_known :
    (now n : ℕ) (id : Str) (s : Server)
    → has id s.connections ≡ true
    → (disconnect_connection now id (manager_of s.handler.runtime)).1 ≡ some n
    → drop now id s ≡ record s {
      handler = count on_disconnect (
          on_runtime
            (with_manager (disconnect_connection now id (manager_of s.handler.runtime)).0)
            (left_by id s));
      connections = remove id s.connections;
    }
unfolding drop
drop_known now n id s known ends =
    rw (known, drop)
      (ap (λ (h : Handler). record s { handler = h; connections = remove id s.connections })
        (dropped-some (disconnect_connection now id (manager_of s.handler.runtime)) (left_by id s) n
          ends))

-- The connection of a consumer.
abbrev pub owner : Str → Dict Consumer → Option Str
owner consumer_id d = elim (get consumer_id d) [ none ↦ none | some c ↦ some c.connection_id ]

owner-disconnect_connection :
    (now n : ℕ) (id consumer_id : Str) (m : Manager)
    → Reached m
    → (disconnect_connection now id m).1 ≡ some n
    → owner consumer_id (disconnect_connection now id m).0.consumers ≢ some id
owner-disconnect_connection now n id consumer_id m reached ends =
    elim (Option-cases (get consumer_id (disconnect_connection now id m).0.consumers)) [
      | inl gone ↦ rw (gone, owner) (λ e. cc)
      | inr (c, there) ↦
          rw (there, owner)
            (λ e.
              disconnect_leaves_none m now n id consumer_id c reached ends there
                (ground (arith, e)))
    ]

-- After the server has dropped a connection that it knew, without an exception, the connection is in
-- no table of the server, can be sent nothing, is in no channel, owns no consumer that is left, and is
-- taken off the count. The indexes of the channels agreed before, and the registry was in a state that
-- its operations reach.
pub drop_forgets :
    (now n : ℕ) (id channel consumer_id : Str) (s : Server)
    → has id s.connections ≡ true
    → IsSymmetric s.handler.runtime.pubsub
    → Reached (manager_of s.handler.runtime)
    → (disconnect_connection now id (manager_of s.handler.runtime)).1 ≡ some n
    → (has id (drop now id s).connections ≡ false)
      × (get id (drop now id s).handler.senders ≡ none)
      × (contains id (subscribers channel (drop now id s).handler.runtime.pubsub) ≡ false)
      × (owner consumer_id (drop now id s).handler.runtime.consumers ≢ some id)
      × ((drop now id s).handler.runtime.metrics.connections
          ≡ s.handler.runtime.metrics.connections - 1)
drop_forgets now n id channel consumer_id s known symmetric reached ends =
    let is = drop_known now n id s known ends in
    (
      ap (λ (x : Server). has id x.connections) is
          ∙ ground (arith, has-remove id id s.connections, str_eq_refl id),
      ap (λ (x : Server). get id x.handler.senders) is
          ∙ ground (arith, get-remove id id s.handler.senders, str_eq_refl id),
      ap (λ (x : Server). contains id (subscribers channel x.handler.runtime.pubsub)) is
          ∙ (disconnect_lem id s.handler.runtime.pubsub symmetric).1 channel,
      rw is (
          owner-disconnect_connection now n id consumer_id (manager_of s.handler.runtime) reached
            ends),
      ap (λ (x : Server). x.handler.runtime.metrics.connections) is
          ∙ connections-on_disconnect s.handler.runtime.metrics,
    )
