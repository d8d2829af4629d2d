-- ===== src/Broker/Pump.antt =====
-- `pump_queue`: what waits in a queue is sent to its consumers.
use one_open_broker.Prelude.{ℕ, zero, suc, true, false, Option, none, some, List, [], ◌∷◌, Str}
use one_open_broker.Core.Message.{Message}
use one_open_broker.Queue.Delivery.{nack}
use one_open_broker.Consumers.State.{Consumer, Manager, on_ack}
use one_open_broker.Consumers.Delivery.{try_reserve, waiting}
use one_open_broker.Broker.Replies.{Answer, raises}
use one_open_broker.Broker.State.{
  Runtime, Handler, Encoder, deliver, manager_of, with_manager, on_runtime, send_to,
}

-- What follows a DELIVER that the connection did not take: `nack` and `on_ack`.
unfoldable pub take_back : ℕ → Str → Str → Runtime → Runtime
take_back now message_id consumer_id rt =
    let e = (nack now message_id true true rt.engine).0 in
    with_manager (on_ack now consumer_id (manager_of (record rt { engine = e }))) rt

-- How the loop ended: by one of its `return`s, by an exception of `event_frame`, or not at all when
-- the fuel was gone.
pub data Ending : Type 0 where
  returned raised unfinished : Ending

-- The rest of a round, given what `try_reserve` left and returned, and the rounds that follow. Where
-- `event_frame` raises, the delivery stays reserved.
unfoldable pub pump_round :
    Encoder
    → ℕ
    → (Handler → Handler × Ending)
    → Manager × Option (Consumer × Message)
    → Handler
    → Handler × Ending
pump_round encodes now rounds (m, none) h = (on_runtime (with_manager m) h, returned)
pump_round encodes now rounds (m, some (c, message)) h =
    let x = deliver message c.consumer_id in
    let reserved = on_runtime (with_manager m) h in
    let (sent, took) = send_to c.connection_id x reserved in
    elim (encodes x) [
      | false ↦ (reserved, raised)
      | true ↦ elim took [
        | true ↦ rounds sent
        | false ↦ (on_runtime (take_back now message.id c.consumer_id) sent, returned)
      ]
    ]

-- `while True`, with fuel.
unfoldable pub pump_fuel : ℕ → Encoder → ℕ → Str → Handler → Handler × Ending
pump_fuel zero encodes now name h = (h, unfinished)
pump_fuel (suc fuel) encodes now name h =
    pump_round encodes now (pump_fuel fuel encodes now name)
      (try_reserve now name (manager_of h.runtime)) h

-- Each round that goes on has taken an entry off the ready heap.
abbrev pub pump_rounds : Str → Handler → ℕ
pump_rounds name h = suc (waiting name (manager_of h.runtime))

unfoldable pub pump_queue : Encoder → ℕ → Str → Handler → Handler × Ending
pump_queue encodes now name h = pump_fuel (pump_rounds name h) encodes now name h

-- `for name in names: self.pump_queue(name)`; an exception ends it.
unfoldable pub pump_all : Encoder → ℕ → List Str → Handler → Handler × Ending
pump_all encodes now [] h = (h, returned)
pump_all encodes now (name ∷ names) h =
    let (h', ending) = pump_queue encodes now name h in
    elim ending [
      | returned ↦ pump_all encodes now names h'
      | raised ↦ (h', raised)
      | unfinished ↦ (h', unfinished)
    ]

-- The answer of a method that pumps before it returns; an exception is passed on.
unfoldable pub answer_after : Answer → Handler × Ending → Handler × Answer
answer_after answer (h, returned) = (h, answer)
answer_after answer (h, raised) = (h, raises)
answer_after answer (h, unfinished) = (h, raises)
