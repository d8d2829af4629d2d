-- ===== src/Broker/Pumping.antt =====
-- `pump_queue` ends, and what its rounds leave alone.
use one_open_broker.Prelude.{
  ℕ, zero, suc, ◌<◌, ◌≡◌, refl, ap, ◌⊎◌, false, true, Option, none, some, List, [], ◌∷◌, Str, arith,
  Bool-cases, Option-cases, inl, inr,
}
use one_open_broker.Dict.{get}
use one_open_broker.Core.Message.{Message}
use one_open_broker.Queue.Consistent.{IsConsistent}
use one_open_broker.Queue.Consistent.Settle.{nack-IsConsistent}
use one_open_broker.Consumers.State.{Consumer, Manager, on_ack}
use one_open_broker.Consumers.Delivery.{try_reserve, waiting}
use one_open_broker.Consumers.Drain.{try_reserve-fewer}
use one_open_broker.Consumers.Consistent.{try_reserve-IsConsistent}
use one_open_broker.Broker.Replies.{Answer}
use one_open_broker.Broker.State.{
  Runtime, Handler, Encoder, Outgoing, deliver, manager_of, with_manager, on_runtime, send_to,
}
use one_open_broker.Broker.Pump.{
  Ending, returned, raised, unfinished, answer_after, take_back, pump_round, pump_fuel, pump_rounds,
  pump_queue, pump_all,
}

-- A send changes nothing but the buffers.
pub runtime-send_to :
    (id : Str) (x : Outgoing) (h : Handler) → (send_to id x h).0.runtime ≡ h.runtime
unfolding send_to
runtime-send_to id x h = elim (Option-cases (get id h.senders)) [
  | inl gone ↦ rw (gone, send_to) refl
  | inr (o, k) ↦ rw (k, send_to) refl
]

-- `on_ack` of the registry does not touch the engine.
pub engine-on_ack : (now : ℕ) (id : Str) (m : Manager) → (on_ack now id m).engine ≡ m.engine
unfolding on_ack
engine-on_ack now id m = elim (Option-cases (get id m.consumers)) [
  | inl gone ↦ rw (gone, on_ack) refl
  | inr (c, k) ↦ rw (k, on_ack) refl
]

-- A property of handlers that a round keeps on each of its ways, a pump keeps.
module _ (P : Handler → Type 0) (encodes : Encoder) (now : ℕ) (name : Str)
    (reserves : (h : Handler)
      → P h
      → P (on_runtime (with_manager (try_reserve now name (manager_of h.runtime)).0) h))
    (sends : (id : Str) (x : Outgoing) (h : Handler) → P h → P (send_to id x h).0)
    (takes_back : (message_id consumer_id : Str) (h : Handler)
      → P h
      → P (on_runtime (take_back now message_id consumer_id) h)) where
  pump_round_keeps :
      (rounds : Handler → Handler × Ending)
      → ((h : Handler) → P h → P (rounds h).0)
      → (x : Manager × Option (Consumer × Message)) (h : Handler)
      → P (on_runtime (with_manager x.0) h)
      → P (pump_round encodes now rounds x h).0
  unfolding pump_round
  pump_round_keeps rounds later (m, none) h p = p
  pump_round_keeps rounds later (m, some (c, message)) h p =
      let reserved = on_runtime (with_manager m) h in
      let x = deliver message c.consumer_id in
      let sent = sends c.connection_id x reserved p in
      elim (Bool-cases (encodes x)) [
        | inr bad ↦ rw (bad, pump_round) p
        | inl good ↦ elim (Bool-cases (send_to c.connection_id x reserved).1) [
          | inl took ↦ rw (good, pump_round) (rw took (later _ sent))
          | inr refused ↦
              rw (good, pump_round) (rw refused (takes_back message.id c.consumer_id _ sent))
        ]
      ]

  pump_fuel_keeps : (fuel : ℕ) (h : Handler) → P h → P (pump_fuel fuel encodes now name h).0
  unfolding pump_fuel
  pump_fuel_keeps zero h p = p
  pump_fuel_keeps (suc fuel) h p =
      pump_round_keeps (pump_fuel fuel encodes now name) (pump_fuel_keeps fuel)
        (try_reserve now name (manager_of h.runtime)) h (reserves h p)

  pub pump_queue_keeps : (h : Handler) → P h → P (pump_queue encodes now name h).0
  unfolding pump_queue
  pump_queue_keeps h p = pump_fuel_keeps (pump_rounds name h) h p

-- How a loop may end: by a `return` or, if there is an event that cannot be encoded, by an exception.
pub data Finish (encodes : Encoder) : Ending → Type 0 where
  by_return : Finish encodes returned
  by_exception : (x : Outgoing) → encodes x ≡ false → Finish encodes raised

module _ (encodes : Encoder) (now : ℕ) (name : Str) where
  pump_round_ends :
      (rounds : Handler → Handler × Ending) (x : Manager × Option (Consumer × Message))
      (h : Handler)
      → ((delivery : Consumer × Message) (next : Handler)
          → x.1 ≡ some delivery
          → manager_of next.runtime ≡ x.0
          → Finish encodes (rounds next).1)
      → Finish encodes (pump_round encodes now rounds x h).1
  unfolding pump_round
  pump_round_ends rounds (m, none) h later = by_return
  pump_round_ends rounds (m, some (c, message)) h later =
      let reserved = on_runtime (with_manager m) h in
      let x = deliver message c.consumer_id in
      elim (Bool-cases (encodes x)) [
        | inr bad ↦ rw (bad, pump_round) (by_exception x bad)
        | inl good ↦ elim (Bool-cases (send_to c.connection_id x reserved).1) [
          | inr refused ↦ rw (good, pump_round) (rw refused by_return)
          | inl took ↦
              rw (good, pump_round)
                (rw took (
                  later (c, message) (send_to c.connection_id x reserved).0 refl
                    (ap (λ (rt : Runtime). manager_of rt)
                      (runtime-send_to c.connection_id x reserved))))
        ]
      ]

  pump_fuel_ends :
      (fuel : ℕ) (h : Handler)
      → waiting name (manager_of h.runtime) < fuel
      → Finish encodes (pump_fuel fuel encodes now name h).1
  unfolding pump_fuel
  pump_fuel_ends zero h less = absurd (omega arith)
  pump_fuel_ends (suc fuel) h less =
      pump_round_ends (pump_fuel fuel encodes now name)
        (try_reserve now name (manager_of h.runtime)) h
        (λ delivery next some_one same.
          let fewer = try_reserve-fewer now name (manager_of h.runtime) delivery some_one in
          let left = ap (λ (m : Manager). waiting name m) same in
          pump_fuel_ends fuel next (omega (arith, fewer, left)))

-- The loop of `pump_queue` always ends, never for want of fuel: by one of its `return`s, or by an
-- exception of `event_frame`, and by that only if there is an event that cannot be encoded.
pub pump_queue_ends :
    (encodes : Encoder) (now : ℕ) (name : Str) (h : Handler)
    → Finish encodes (pump_queue encodes now name h).1
unfolding pump_queue
pump_queue_ends encodes now name h =
    pump_fuel_ends encodes now name (pump_rounds name h) h (omega arith)

Ending-cases : (e : Ending) → (e ≡ returned) ⊎ ((e ≡ raised) ⊎ (e ≡ unfinished))
Ending-cases returned = inl refl
Ending-cases raised = inr (inl refl)
Ending-cases unfinished = inr (inr refl)

abbrev pub IsConsistentHandler : Handler → Type 0
IsConsistentHandler h = IsConsistent h.runtime.engine

pub take_back-IsConsistent :
    (now : ℕ) (message_id consumer_id : Str) (rt : Runtime)
    → IsConsistent rt.engine
    → IsConsistent (take_back now message_id consumer_id rt).engine
unfolding take_back
take_back-IsConsistent now message_id consumer_id rt c =
    rw (engine-on_ack) (nack-IsConsistent now message_id true true rt.engine c)

pub pump_queue-IsConsistent :
    (encodes : Encoder) (now : ℕ) (name : Str) (h : Handler)
    → IsConsistentHandler h
    → IsConsistentHandler (pump_queue encodes now name h).0
pump_queue-IsConsistent encodes now name h c =
    pump_queue_keeps IsConsistentHandler encodes now name
      (λ g k. try_reserve-IsConsistent now name (manager_of g.runtime) k)
      (λ id x g k. rw (runtime-send_to id x g) k)
      (λ message_id consumer_id g k. take_back-IsConsistent now message_id consumer_id g.runtime k)
      h c

pub pump_all-IsConsistent :
    (encodes : Encoder) (now : ℕ) (names : List Str) (h : Handler)
    → IsConsistentHandler h
    → IsConsistentHandler (pump_all encodes now names h).0
unfolding pump_all
pump_all-IsConsistent encodes now [] h c = c
pump_all-IsConsistent encodes now (name ∷ names) h c =
    let k = pump_queue-IsConsistent encodes now name h c in
    elim (Ending-cases (pump_queue encodes now name h).1) [
      | inl done ↦
          rw (done, pump_all)
            (pump_all-IsConsistent encodes now names (pump_queue encodes now name h).0 k)
      | inr (inl bad) ↦ rw (bad, pump_all) k
      | inr (inr cut) ↦ rw (cut, pump_all) k
    ]

pub answer_after-IsConsistent :
    (answer : Answer) (x : Handler × Ending)
    → IsConsistentHandler x.0
    → IsConsistentHandler (answer_after answer x).0
unfolding answer_after
answer_after-IsConsistent answer (h, returned) c = c
answer_after-IsConsistent answer (h, raised) c = c
answer_after-IsConsistent answer (h, unfinished) c = c
