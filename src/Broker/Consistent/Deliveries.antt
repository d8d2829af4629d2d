-- ===== src/Broker/Consistent/Deliveries.antt =====
-- The commands that publish, deliver and settle keep the indexes of the queue engine consistent.
use one_open_broker.Prelude.{
  ℕ, ◌≡◌, refl, true, none, List, [], ◌∷◌, ◌==◌, Str, Bool-cases, Option-cases, List-cases, inl,
  inr, ◌⊎◌,
}
use one_open_broker.Prelude.Int.{pos}
use one_open_broker.Dict.{get, has}
use one_open_broker.Core.Message.{Bytes}
use one_open_broker.Core.Results.{AckResult, NackResult, EnqueueResult}
use one_open_broker.Queue.Declare.{default_options}
use one_open_broker.Queue.Delivery.{ack, nack, inflight_consumer}
use one_open_broker.Queue.Consistent.{IsConsistent}
use one_open_broker.Queue.Consistent.Settle.{ack-IsConsistent, nack-IsConsistent}
use one_open_broker.Routing.Consistent.{publish-IsConsistent, AreNew}
use one_open_broker.Routing.Publish.{PublishResult}
use one_open_broker.Consumers.State.{Manager, qos, on_ack}
use one_open_broker.Consumers.Consistent.{
  try_reserve-IsConsistent, register-IsConsistent, cancel-IsConsistent,
}
use one_open_broker.Broker.Replies.{Meta, or_blank, either}
use one_open_broker.Broker.State.{
  Encoder, Runtime, Handler, Context, manager_of, with_manager, router_of, on_runtime,
}
use one_open_broker.Broker.Pumping.{
  IsConsistentHandler, answer_after-IsConsistent, pump_all-IsConsistent, engine-on_ack,
}
use one_open_broker.Broker.Queues.{declare_and_bind}
use one_open_broker.Broker.Deliveries.{
  polling, cmd_get, queues_of, declare_missing, cmd_consume, cmd_cancel, pump_consumer, settled_by,
  cmd_ack, cmd_nack, int_or, set_window, cmd_qos, window_of, published_as, cmd_publish,
  publish_args,
}
use one_open_broker.Broker.Consistent.Queues.{declare_and_bind-IsConsistent}

polling-IsConsistent :
    (now : ℕ) (id connection_id queue : Str) (prefetch : ℕ) (m : Manager)
    → IsConsistent m.engine
    → IsConsistent (polling now id connection_id queue prefetch m).engine
unfolding polling
polling-IsConsistent now id connection_id queue prefetch m c =
    elim (Option-cases (get id m.consumers)) [
      | inl new ↦
          rw (new, polling)
            (register-IsConsistent now id connection_id (queue ∷ []) prefetch [] m c)
      | inr (x, known) ↦ elim (Bool-cases (prefetch == 0)) [
        | inl stays ↦ rw (known, polling) (rw stays c)
        | inr set ↦ rw (known, polling) (rw set c)
      ]
    ]

pub cmd_get-IsConsistent :
    (now : ℕ) (ctx : Context) (meta : Meta) (h : Handler)
    → IsConsistentHandler h
    → IsConsistentHandler (cmd_get now ctx meta h).0
unfolding cmd_get
cmd_get-IsConsistent now ctx meta h c = elim (List-cases (or_blank meta.queue)) [
  | inl blank ↦ rw (blank, cmd_get) c
  | inr (x, s, name) ↦ elim (Option-cases (int_or meta.prefetch ctx.prefetch)) [
    | inl bad ↦ rw (name, cmd_get) (rw bad c)
    | inr (prefetch, good) ↦
        rw (name, cmd_get)
          (rw good (
            try_reserve-IsConsistent now (x ∷ s) _ (
              polling-IsConsistent now _ ctx.connection_id (x ∷ s) prefetch (manager_of h.runtime)
                c)))
  ]
]

declare_missing-IsConsistent :
    (names : List Str) (rt : Runtime)
    → IsConsistent rt.engine
    → IsConsistent (declare_missing names rt).engine
unfolding declare_missing
declare_missing-IsConsistent [] rt c = c
declare_missing-IsConsistent (name ∷ names) rt c = elim (Bool-cases (has name rt.engine.queues)) [
  | inl there ↦ rw (there, declare_missing) (declare_missing-IsConsistent names rt c)
  | inr gone ↦
      rw (gone, declare_missing)
        (declare_missing-IsConsistent names (declare_and_bind name default_options rt)
          (declare_and_bind-IsConsistent name default_options rt c))
]

pub cmd_consume-IsConsistent :
    (encodes : Encoder) (now : ℕ) (uuid : Str) (ctx : Context) (meta : Meta) (h : Handler)
    → IsConsistentHandler h
    → IsConsistentHandler (cmd_consume encodes now uuid ctx meta h).0
unfolding cmd_consume
cmd_consume-IsConsistent encodes now uuid ctx meta h c = elim (List-cases (queues_of meta)) [
  | inl empty ↦ rw (empty, cmd_consume) c
  | inr (name, names, some_queues) ↦
      let declared = declare_missing-IsConsistent (name ∷ names) h.runtime c in
      elim (Option-cases (int_or meta.prefetch (window_of ctx))) [
        | inl bad ↦ rw (some_queues, cmd_consume) (rw bad declared)
        | inr (prefetch, good) ↦
            rw (some_queues, cmd_consume)
              (rw good (
                answer_after-IsConsistent _ _ (
                  pump_all-IsConsistent encodes now (name ∷ names) _ (
                    register-IsConsistent now _ ctx.connection_id (name ∷ names) prefetch _ _
                      declared))))
      ]
]

pub cmd_cancel-IsConsistent :
    (now : ℕ) (meta : Meta) (h : Handler)
    → IsConsistentHandler h
    → IsConsistentHandler (cmd_cancel now meta h).0
unfolding cmd_cancel
cmd_cancel-IsConsistent now meta h c = elim (List-cases (or_blank meta.consumer_id)) [
  | inl blank ↦ rw (blank, cmd_cancel) c
  | inr (x, s, name) ↦
      rw (name, cmd_cancel) (cancel-IsConsistent now (x ∷ s) true (manager_of h.runtime) c)
]

settled_by-IsConsistent :
    (encodes : Encoder) (now : ℕ) (id : Str) (h : Handler)
    → IsConsistentHandler h
    → IsConsistentHandler (settled_by encodes now id h).0
unfolding settled_by pump_consumer
settled_by-IsConsistent encodes now [] h c = c
settled_by-IsConsistent encodes now (x ∷ s) h c =
    let m = on_ack now (x ∷ s) (manager_of h.runtime) in
    let k : IsConsistent m.engine = rw (engine-on_ack) c in
    elim (Option-cases (get (x ∷ s) m.consumers)) [
      | inl gone ↦ rw (gone, settled_by) k
      | inr (y, there) ↦
          rw (there, settled_by)
            (pump_all-IsConsistent encodes now y.queues (on_runtime (with_manager m) h) k)
    ]

EnqueueResult-cases :
    (r : EnqueueResult)
    → (r ≡ EnqueueResult.ok) ⊎ ((r ≡ EnqueueResult.queue_full) ⊎ (r ≡ EnqueueResult.not_found))
EnqueueResult-cases EnqueueResult.ok = inl refl
EnqueueResult-cases EnqueueResult.queue_full = inr (inl refl)
EnqueueResult-cases EnqueueResult.not_found = inr (inr refl)

AckResult-cases :
    (r : AckResult)
    → (r ≡ AckResult.ok) ⊎ ((r ≡ AckResult.already_acked) ⊎ (r ≡ AckResult.not_found))
AckResult-cases AckResult.ok = inl refl
AckResult-cases AckResult.already_acked = inr (inl refl)
AckResult-cases AckResult.not_found = inr (inr refl)

pub cmd_ack-IsConsistent :
    (encodes : Encoder) (now : ℕ) (meta : Meta) (h : Handler)
    → IsConsistentHandler h
    → IsConsistentHandler (cmd_ack encodes now meta h).0
unfolding cmd_ack
cmd_ack-IsConsistent encodes now meta h c = elim (List-cases (either meta.message_id meta.id)) [
  | inl blank ↦ rw (blank, cmd_ack) c
  | inr (x, s, name) ↦
      let k = ack-IsConsistent (x ∷ s) true h.runtime.engine c in
      elim (AckResult-cases (ack (x ∷ s) true h.runtime.engine).1) [
        | inl done ↦
            rw (name, cmd_ack)
              (rw done (
                answer_after-IsConsistent _ _ (
                  settled_by-IsConsistent encodes now
                    (or_blank (inflight_consumer (x ∷ s) h.runtime.engine))
                    (on_runtime (λ rt. record rt { engine = (ack (x ∷ s) true h.runtime.engine).0 })
                      h)
                    k)))
        | inr (inl known) ↦ rw (name, cmd_ack) (rw known k)
        | inr (inr lost) ↦ rw (name, cmd_ack) (rw lost k)
      ]
]

NackResult-cases :
    (r : NackResult)
    → (r ≡ NackResult.ok) ⊎ ((r ≡ NackResult.unknown_delivery) ⊎ (r ≡ NackResult.not_found))
NackResult-cases NackResult.ok = inl refl
NackResult-cases NackResult.unknown_delivery = inr (inl refl)
NackResult-cases NackResult.not_found = inr (inr refl)

pub cmd_nack-IsConsistent :
    (encodes : Encoder) (now : ℕ) (meta : Meta) (h : Handler)
    → IsConsistentHandler h
    → IsConsistentHandler (cmd_nack encodes now meta h).0
unfolding cmd_nack
cmd_nack-IsConsistent encodes now meta h c = elim (List-cases (either meta.message_id meta.id)) [
  | inl blank ↦ rw (blank, cmd_nack) c
  | inr (x, s, name) ↦
      let done = nack now (x ∷ s) meta.requeue true h.runtime.engine in
      let k = nack-IsConsistent now (x ∷ s) meta.requeue true h.runtime.engine c in
      elim (NackResult-cases done.1) [
        | inl settled ↦
            rw (name, cmd_nack)
              (rw settled (
                answer_after-IsConsistent _ _ (
                  settled_by-IsConsistent encodes now
                    (or_blank (inflight_consumer (x ∷ s) h.runtime.engine))
                    (on_runtime (λ rt. record rt { engine = done.0 }) h) k)))
        | inr (inl unknown) ↦ rw (name, cmd_nack) (rw unknown k)
        | inr (inr lost) ↦ rw (name, cmd_nack) (rw lost k)
      ]
]

engine-qos :
    (now : ℕ) (id : Str) (prefetch : ℕ) (m : Manager) → (qos now id prefetch m).0.engine ≡ m.engine
unfolding qos
engine-qos now id prefetch m = elim (Option-cases (get id m.consumers)) [
  | inl gone ↦ rw (gone, qos) refl
  | inr (c, there) ↦ rw (there, qos) refl
]

engine-set_window :
    (now : ℕ) (id connection_id : Str) (prefetch : ℕ) (m : Manager)
    → (set_window now id connection_id prefetch m).0.engine ≡ m.engine
unfolding set_window
engine-set_window now [] connection_id prefetch m = refl
engine-set_window now (x ∷ s) connection_id prefetch m = engine-qos now (x ∷ s) prefetch m

pub cmd_qos-IsConsistent :
    (now : ℕ) (ctx : Context) (meta : Meta) (h : Handler)
    → IsConsistentHandler h
    → IsConsistentHandler (cmd_qos now ctx meta h).1
unfolding cmd_qos
cmd_qos-IsConsistent now ctx meta h c = elim (Option-cases (int_or meta.prefetch 0)) [
  | inl bad ↦ rw (bad, cmd_qos) c
  | inr (prefetch, good) ↦ rw (good, cmd_qos) (rw (engine-set_window) c)
]

published_as-IsConsistent :
    (encodes : Encoder) (now : ℕ) (p : PublishResult) (h : Handler)
    → IsConsistentHandler h
    → IsConsistentHandler (published_as encodes now p h).0
unfolding published_as
published_as-IsConsistent encodes now p h c = elim (EnqueueResult-cases p.result) [
  | inr (inl full) ↦ rw (full, published_as) c
  | inr (inr lost) ↦ rw (lost, published_as) c
  | inl done ↦ elim (List-cases p.routed) [
    | inl nowhere ↦ rw (done, published_as) (rw nowhere c)
    | inr (name, names, targets) ↦
        rw (done, published_as)
          (rw targets
            (answer_after-IsConsistent _ _ (pump_all-IsConsistent encodes now (name ∷ names) h c)))
  ]
]

pub cmd_publish-IsConsistent :
    (encodes : Encoder) (now : ℕ) (uuids : ℕ → Str) (meta : Meta) (payload : Bytes) (h : Handler)
    → ((i j : ℕ) → uuids i ≡ uuids j → i ≡ j)
    → AreNew uuids none 0 h.runtime.engine
    → AreNew uuids meta.message_id 0 h.runtime.engine
    → IsConsistentHandler h
    → IsConsistentHandler (cmd_publish encodes now uuids meta payload h).0
unfolding cmd_publish
cmd_publish-IsConsistent encodes now uuids meta payload h distinct new given c =
    elim (Option-cases (int_or meta.priority (pos 0))) [
      | inl bad ↦ rw (bad, cmd_publish) c
      | inr (priority, good) ↦
          let args = publish_args meta payload priority in
          rw (good, cmd_publish)
            (published_as-IsConsistent encodes now _ _
              (publish-IsConsistent uuids now args true (router_of h.runtime) distinct c new given))
    ]
