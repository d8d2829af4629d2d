-- ===== src/Broker/Consistent/Queues.antt =====
-- The commands on queues, exchanges and bindings keep the indexes of the queue engine consistent.
use one_open_broker.Prelude.{
  ◌≡◌, refl, Bool, true, some, ◌∷◌, Str, str_eq, Bool-cases, Option-cases, List-cases, inl, inr,
}
use one_open_broker.Dict.{get, has}
use one_open_broker.Queue.Declare.{QueueOptions, declare_queue}
use one_open_broker.Queue.Info.{queue_info}
use one_open_broker.Queue.DeadLetters.{dlq_info}
use one_open_broker.Queue.Consistent.{IsConsistent, log-IsConsistent}
use one_open_broker.Queue.Consistent.Declare.{declare_queue-IsConsistent}
use one_open_broker.Queue.Consistent.Delete.{delete_queue-IsConsistent}
use one_open_broker.Routing.State.{
  Router, make_exchange, default_exchange, on_engine, on_queue_declared, declare_exchange,
  delete_exchange, bind, unbind, bound, direct,
}
use one_open_broker.Routing.Consistent.{bind-IsConsistent}
use one_open_broker.Broker.Replies.{Meta, or_blank, either}
use one_open_broker.Broker.State.{Runtime, Handler, router_of}
use one_open_broker.Broker.Pumping.{IsConsistentHandler}
use one_open_broker.Broker.Queues.{
  cmd_declare_exchange, found_or, cmd_delete_exchange, options_given, declare_and_bind,
  cmd_declare_queue, cmd_delete_queue, cmd_bind, cmd_unbind, cmd_queue_info, cmd_dlq_info,
}

delete_exchange-IsConsistent :
    (name : Str) (persist : Bool) (r : Router)
    → IsConsistent r.engine
    → IsConsistent (delete_exchange name persist r).0.engine
unfolding delete_exchange on_engine
delete_exchange-IsConsistent name persist r c = elim (Bool-cases (str_eq name default_exchange)) [
  | inl kept ↦ rw (kept, delete_exchange) c
  | inr other ↦ elim (Bool-cases (has name r.exchanges)) [
    | inl there ↦ rw (other, delete_exchange) (rw there (log-IsConsistent persist _ r.engine c))
    | inr gone ↦ rw (other, delete_exchange) (rw gone c)
  ]
]

unbind-IsConsistent :
    (exchange queue routing_key : Str) (persist : Bool) (r : Router)
    → IsConsistent r.engine
    → IsConsistent (unbind exchange queue routing_key persist r).0.engine
unfolding unbind on_engine
unbind-IsConsistent exchange queue routing_key persist r c =
    elim (Bool-cases (
      bound (record { exchange = exchange; queue = queue; routing_key = routing_key })
        r.bindings)) [
          | inl found ↦ rw (found, unbind) (log-IsConsistent persist _ r.engine c)
          | inr lost ↦ rw (lost, unbind) c
        ]

pub declare_and_bind-IsConsistent :
    (name : Str) (o : QueueOptions) (rt : Runtime)
    → IsConsistent rt.engine
    → IsConsistent (declare_and_bind name o rt).engine
unfolding declare_and_bind on_queue_declared
declare_and_bind-IsConsistent name o rt c =
    bind-IsConsistent default_exchange name name true
      (router_of (record rt { engine = (declare_queue name o true rt.engine).0 }))
      (declare_queue-IsConsistent name o true rt.engine c)

pub cmd_declare_exchange-IsConsistent :
    (meta : Meta) (h : Handler)
    → IsConsistentHandler h
    → IsConsistentHandler (cmd_declare_exchange meta h).0
unfolding cmd_declare_exchange declare_exchange on_engine
cmd_declare_exchange-IsConsistent meta h c =
    elim (Option-cases (get (or_blank meta.name) h.runtime.exchanges)) [
      | inr (x, known) ↦ rw (known, cmd_declare_exchange) c
      | inl new ↦
          elim (Option-cases
            (make_exchange (or_blank meta.name) (either meta.type (some direct)) true)) [
              | inl bad ↦ rw (new, cmd_declare_exchange) (rw bad c)
              | inr (x, made) ↦
                  rw (new, cmd_declare_exchange)
                    (rw made (log-IsConsistent true _ h.runtime.engine c))
            ]
    ]

found_or-IsConsistent :
    (message : Str) (x : Router × Bool) (h : Handler)
    → IsConsistent x.0.engine
    → IsConsistentHandler (found_or message x h).0
unfolding found_or
found_or-IsConsistent message (r, found) h c = c

pub cmd_delete_exchange-IsConsistent :
    (meta : Meta) (h : Handler)
    → IsConsistentHandler h
    → IsConsistentHandler (cmd_delete_exchange meta h).0
unfolding cmd_delete_exchange
cmd_delete_exchange-IsConsistent meta h c =
    found_or-IsConsistent _ (delete_exchange (or_blank meta.name) true (router_of h.runtime)) h
      (delete_exchange-IsConsistent (or_blank meta.name) true (router_of h.runtime) c)

pub cmd_bind-IsConsistent :
    (meta : Meta) (h : Handler) → IsConsistentHandler h → IsConsistentHandler (cmd_bind meta h).0
unfolding cmd_bind
cmd_bind-IsConsistent meta h c =
    found_or-IsConsistent _
      (bind (or_blank meta.exchange) (or_blank meta.queue) (or_blank meta.routing_key) true
        (router_of h.runtime))
      h
      (bind-IsConsistent (or_blank meta.exchange) (or_blank meta.queue) (or_blank meta.routing_key)
        true (router_of h.runtime) c)

pub cmd_unbind-IsConsistent :
    (meta : Meta) (h : Handler) → IsConsistentHandler h → IsConsistentHandler (cmd_unbind meta h).0
unfolding cmd_unbind
cmd_unbind-IsConsistent meta h c =
    found_or-IsConsistent _
      (unbind (or_blank meta.exchange) (or_blank meta.queue) (or_blank meta.routing_key) true
        (router_of h.runtime))
      h
      (unbind-IsConsistent (or_blank meta.exchange) (or_blank meta.queue)
        (or_blank meta.routing_key) true (router_of h.runtime) c)

pub cmd_declare_queue-IsConsistent :
    (meta : Meta) (h : Handler)
    → IsConsistentHandler h
    → IsConsistentHandler (cmd_declare_queue meta h).0
unfolding cmd_declare_queue
cmd_declare_queue-IsConsistent meta h c = elim (List-cases (or_blank meta.name)) [
  | inl blank ↦ rw (blank, cmd_declare_queue) c
  | inr (x, s, name) ↦
      rw (name, cmd_declare_queue)
        (declare_and_bind-IsConsistent (x ∷ s) (options_given meta) h.runtime c)
]

pub cmd_delete_queue-IsConsistent :
    (meta : Meta) (h : Handler)
    → IsConsistentHandler h
    → IsConsistentHandler (cmd_delete_queue meta h).0
unfolding cmd_delete_queue
cmd_delete_queue-IsConsistent meta h c =
    delete_queue-IsConsistent (or_blank meta.name) true h.runtime.engine c

pub cmd_queue_info_same : (meta : Meta) (h : Handler) → (cmd_queue_info meta h).0 ≡ h
unfolding cmd_queue_info
cmd_queue_info_same meta h =
    elim (Option-cases (queue_info (or_blank meta.name) h.runtime.engine)) [
      | inl gone ↦ rw (gone, cmd_queue_info) refl
      | inr (x, found) ↦ rw (found, cmd_queue_info) refl
    ]

pub cmd_dlq_info_same : (meta : Meta) (h : Handler) → (cmd_dlq_info meta h).0 ≡ h
unfolding cmd_dlq_info
cmd_dlq_info_same meta h =
    elim (Option-cases (dlq_info (either meta.queue meta.name) h.runtime.engine)) [
      | inl gone ↦ rw (gone, cmd_dlq_info) refl
      | inr (x, found) ↦ rw (found, cmd_dlq_info) refl
    ]
