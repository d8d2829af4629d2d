-- ===== src/Consumers/Delivery.antt =====
-- `try_reserve` and `drain_queue`.
use one_open_broker.Prelude.{
  ℕ, zero, suc, ◌+◌, ◌%◌, Bool, false, Option, none, some, List, [], ◌∷◌, Str, if◌then◌else◌,
  length,
}
use one_open_broker.Dict.{get, put}
use one_open_broker.Core.Message.{Message}
use one_open_broker.Core.Qos.{QoS, can_deliver, on_deliver}
use one_open_broker.Queue.State.{DurableQueue, Engine, store}
use one_open_broker.Queue.Delivery.{reserve}
use one_open_broker.Consumers.State.{Consumer, Manager, touch}

-- `consumer_ids[idx]`
unfoldable pub nth : List Str → ℕ → Option Str
nth [] i = none
nth (x ∷ xs) zero = some x
nth (x ∷ xs) (suc i) = nth xs i

-- `queue.rr_index += 1`
unfoldable pub advance : Str → DurableQueue → Engine → Engine
advance name q e = store name (record q { rr_index = q.rr_index + 1 }) e

-- Whether the loop delivers to the consumer that it looks at.
unfoldable pub eligible : Consumer → Bool
eligible c = if c.cancelled then false else can_deliver c.qos

-- The delivery, once a consumer is chosen.
unfoldable pub hand_to : ℕ → Str → Str → Consumer → Manager → Manager × Option (Consumer × Message)
hand_to now queue_name consumer_id c m =
    let (e, item) = reserve now queue_name consumer_id m.engine in
    let busy = touch now (λ (x : QoS). (on_deliver x).0) c in
    elim item [
      | none ↦ (record m { engine = e }, none)
      | some message ↦ (
        record m { engine = e; consumers = put consumer_id busy m.consumers },
        some (busy, message),
      )
    ]

-- The loop `for _ in range(n)`, with the rounds left. The list of consumers does not change in it.
unfoldable pub try_rounds :
    ℕ → ℕ → Str → List Str → ℕ → Manager → Manager × Option (Consumer × Message)
try_rounds now n queue_name ids zero m = (m, none)
try_rounds now n queue_name ids (suc rounds) m = elim (get queue_name m.engine.queues) [
  | none ↦ (m, none)
  | some q ↦
      let moved = record m { engine = advance queue_name q m.engine } in
      let rest = try_rounds now n queue_name ids rounds moved in
      elim (nth ids (q.rr_index % n)) [
        | none ↦ rest
        | some consumer_id ↦ elim (get consumer_id m.consumers) [
          | none ↦ rest
          | some c ↦ if eligible c then hand_to now queue_name consumer_id c moved else rest
        ]
      ]
]

unfoldable pub try_reserve : ℕ → Str → Manager → Manager × Option (Consumer × Message)
try_reserve now queue_name m = elim (get queue_name m.engine.queues) [
  | none ↦ (m, none)
  | some q ↦
      let n = length q.consumer_ids in
      elim q.consumer_ids [
        | [] ↦ (m, none)
        | id ∷ ids ↦ try_rounds now n queue_name q.consumer_ids n m
      ]
]

-- `while True`, with fuel. A round that goes on has taken a message out of the ready heap.
unfoldable pub drain_fuel : ℕ → ℕ → Str → Manager → Manager × Option (List (Consumer × Message))
drain_fuel zero now queue_name m = (m, none)
drain_fuel (suc fuel) now queue_name m =
    let (m', item) = try_reserve now queue_name m in
    let (m'', more) = drain_fuel fuel now queue_name m' in
    elim item [
      | none ↦ (m', some [])
      | some delivery ↦
          (m'', elim more [ none ↦ none | some deliveries ↦ some (delivery ∷ deliveries) ])
    ]

-- The number of messages that wait in the queue.
abbrev pub waiting_in : Option DurableQueue → ℕ
waiting_in none = 0
waiting_in (some q) = length q.ready

abbrev pub waiting : Str → Manager → ℕ
waiting queue_name m = waiting_in (get queue_name m.engine.queues)

unfoldable pub drain_queue : ℕ → Str → Manager → Manager × Option (List (Consumer × Message))
drain_queue now queue_name m = drain_fuel (suc (waiting queue_name m)) now queue_name m
