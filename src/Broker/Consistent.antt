-- ===== src/Broker/Consistent.antt =====
-- `handle` keeps the indexes of the queue engine consistent.
pub mod Queues
mod Deliveries
use one_open_broker.Prelude.{
  ℕ, ◌≡◌, ◌∙◌, refl, Bool, true, false, Option, none, some, List, [], ◌∷◌, Str, List-cases,
  Option-cases, Bool-cases, inl, inr, ◌⊎◌, ap,
}
use one_open_broker.Dict.{get, has, contains}
use one_open_broker.Core.Message.{Bytes}
use one_open_broker.Core.Names.{dlq_name, origin_queue}
use one_open_broker.Security.Acl.{
  Verdict, allowed, unauthorized, forbidden, authorize, Verdict-cases,
}
use one_open_broker.Queue.State.{DurableQueue, Engine}
use one_open_broker.Queue.DeadLetters.{dlq_requeue}
use one_open_broker.Queue.Range.{in_range, attempts_in_range}
use one_open_broker.Queue.Consistent.{IsConsistent}
use one_open_broker.Queue.Consistent.DeadLetters.{dlq_requeue-IsConsistent}
use one_open_broker.Routing.Consistent.{AreNew}
use one_open_broker.Broker.Replies.{
  accept, nothing, Meta, Answer, returns, raises, or_blank, either,
}
use one_open_broker.Broker.State.{Encoder, Handler, Context, Outgoing, send_to, on_runtime}
use one_open_broker.Broker.Pump.{answer_after, pump_queue}
use one_open_broker.Broker.Pumping.{
  IsConsistentHandler, answer_after-IsConsistent, pump_queue-IsConsistent, runtime-send_to,
}
use one_open_broker.Broker.Queues.{requeued, cmd_dlq_requeue, cmd_list_queues}
use one_open_broker.Broker.Channels.{
  cmd_subscribe, cmd_unsubscribe, send_all, cmd_publish_channel, cmd_list_channels,
}
use one_open_broker.Broker.Access.{World, cmd_auth, cmd_stats, cmd_list_consumers}
use one_open_broker.Broker.Handle.{
  Command, ping, auth, info, stats, declare_exchange, delete_exchange, declare_queue, delete_queue,
  queue_info, list_queues, bind, unbind, publish, fetch, consume, cancel, ack, nack, qos,
  list_consumers, subscribe, unsubscribe, publish_channel, list_channels, dlq_info,
  dlq_requeue as requeue, method_of, run_method, answered, dispatch, handle,
}
use one_open_broker.Broker.Consistent.Queues
use one_open_broker.Broker.Consistent.Deliveries

-- The dead letter that the command names is neither in flight nor waiting for a retry.
abbrev pub IsIdleLetter : Meta → Engine → Type 0
IsIdleLetter meta e =
    (q : DurableQueue)
    → get (dlq_name (origin_queue (either meta.queue meta.name))) e.queues ≡ some q
    → (has (either meta.message_id meta.id) q.inflight ≡ false)
      × (contains (either meta.message_id meta.id) q.delayed_ids ≡ false)

requeued-IsConsistent :
    (encodes : Encoder) (now : ℕ) (name : Str) (x : Handler × Bool)
    → IsConsistentHandler x.0
    → IsConsistentHandler (requeued encodes now name x).0
unfolding requeued
requeued-IsConsistent encodes now name (h, true) c =
    answer_after-IsConsistent (accept nothing) (pump_queue encodes now name h)
      (pump_queue-IsConsistent encodes now name h c)
requeued-IsConsistent encodes now name (h, false) c = c

cmd_dlq_requeue-IsConsistent :
    (encodes : Encoder) (now : ℕ) (meta : Meta) (h : Handler)
    → IsIdleLetter meta h.runtime.engine
    → IsConsistentHandler h
    → IsConsistentHandler (cmd_dlq_requeue encodes now meta h).0
unfolding cmd_dlq_requeue
cmd_dlq_requeue-IsConsistent encodes now meta h idle c =
    elim (List-cases (either meta.message_id meta.id)) [
      | inl blank ↦ rw (blank, cmd_dlq_requeue) c
      | inr (x, s, name) ↦
          rw (name, cmd_dlq_requeue)
            (requeued-IsConsistent encodes now (either meta.queue meta.name) _ (
              dlq_requeue-IsConsistent now (either meta.queue meta.name) (x ∷ s) true
                h.runtime.engine c (rw (← name) idle)))
    ]

runtime-send_all :
    (ids : List Str) (x : Outgoing) (h : Handler) → (send_all ids x h).runtime ≡ h.runtime
unfolding send_all
runtime-send_all [] x h = refl
runtime-send_all (id ∷ ids) x h = runtime-send_all ids x (send_to id x h).0 ∙ runtime-send_to id x h

cmd_publish_channel-IsConsistent :
    (meta : Meta) (payload : Bytes) (h : Handler)
    → IsConsistentHandler h
    → IsConsistentHandler (cmd_publish_channel meta payload h).0
unfolding cmd_publish_channel
cmd_publish_channel-IsConsistent meta payload h c = elim (List-cases (or_blank meta.channel)) [
  | inl blank ↦ rw (blank, cmd_publish_channel) c
  | inr (x, s, name) ↦ rw (name, cmd_publish_channel) (rw (runtime-send_all) c)
]

cmd_subscribe-IsConsistent :
    (ctx : Context) (meta : Meta) (h : Handler)
    → IsConsistentHandler h
    → IsConsistentHandler (cmd_subscribe ctx meta h).0
unfolding cmd_subscribe
cmd_subscribe-IsConsistent ctx meta h c = elim (List-cases (or_blank meta.channel)) [
  | inl blank ↦ rw (blank, cmd_subscribe) c
  | inr (x, s, name) ↦ rw (name, cmd_subscribe) c
]

module _ (w : World) (ctx : Context) (meta : Meta) (payload : Bytes) (h : Handler)
    (distinct : (i j : ℕ) → w.uuids i ≡ w.uuids j → i ≡ j) where
  run_method-IsConsistent :
      (c : Command)
      → (c ≡ publish → AreNew w.uuids none 0 h.runtime.engine)
      → (c ≡ publish → AreNew w.uuids meta.message_id 0 h.runtime.engine)
      → (c ≡ requeue → IsIdleLetter meta h.runtime.engine)
      → IsConsistentHandler h
      → IsConsistentHandler (run_method w c ctx meta payload h).1
  unfolding run_method cmd_stats cmd_unsubscribe cmd_list_channels cmd_list_consumers
      cmd_list_queues
  run_method-IsConsistent ping new given idle k = k
  run_method-IsConsistent auth new given idle k = k
  run_method-IsConsistent info new given idle k = k
  run_method-IsConsistent stats new given idle k = k
  run_method-IsConsistent declare_exchange new given idle k =
      Queues.cmd_declare_exchange-IsConsistent meta h k
  run_method-IsConsistent delete_exchange new given idle k =
      Queues.cmd_delete_exchange-IsConsistent meta h k
  run_method-IsConsistent declare_queue new given idle k =
      Queues.cmd_declare_queue-IsConsistent meta h k
  run_method-IsConsistent delete_queue new given idle k =
      Queues.cmd_delete_queue-IsConsistent meta h k
  run_method-IsConsistent queue_info new given idle k = rw (Queues.cmd_queue_info_same meta h) k
  run_method-IsConsistent list_queues new given idle k = k
  run_method-IsConsistent bind new given idle k = Queues.cmd_bind-IsConsistent meta h k
  run_method-IsConsistent unbind new given idle k = Queues.cmd_unbind-IsConsistent meta h k
  run_method-IsConsistent publish new given idle k =
      Deliveries.cmd_publish-IsConsistent w.encodes w.now w.uuids meta payload h distinct (new refl)
        (given refl) k
  run_method-IsConsistent fetch new given idle k =
      Deliveries.cmd_get-IsConsistent w.now ctx meta h k
  run_method-IsConsistent consume new given idle k =
      Deliveries.cmd_consume-IsConsistent w.encodes w.now (w.uuids 0) ctx meta h k
  run_method-IsConsistent cancel new given idle k =
      Deliveries.cmd_cancel-IsConsistent w.now meta h k
  run_method-IsConsistent ack new given idle k =
      Deliveries.cmd_ack-IsConsistent w.encodes w.now meta h k
  run_method-IsConsistent nack new given idle k =
      Deliveries.cmd_nack-IsConsistent w.encodes w.now meta h k
  run_method-IsConsistent qos new given idle k = Deliveries.cmd_qos-IsConsistent w.now ctx meta h k
  run_method-IsConsistent list_consumers new given idle k = k
  run_method-IsConsistent subscribe new given idle k = cmd_subscribe-IsConsistent ctx meta h k
  run_method-IsConsistent unsubscribe new given idle k = k
  run_method-IsConsistent publish_channel new given idle k =
      cmd_publish_channel-IsConsistent meta payload h k
  run_method-IsConsistent list_channels new given idle k = k
  run_method-IsConsistent dlq_info new given idle k = rw (Queues.cmd_dlq_info_same meta h) k
  run_method-IsConsistent requeue new given idle k =
      cmd_dlq_requeue-IsConsistent w.encodes w.now meta h (idle refl) k

answered_keeps :
    (x : Context × Handler × Answer) → IsConsistentHandler x.1 → IsConsistentHandler (answered x).1
answered_keeps (ctx, h, returns reply) k = k
answered_keeps (ctx, h, raises) k = k

-- Handling a command keeps the indexes of the queue engine consistent, whatever the command is and
-- whatever it answers: errors are included, and so is the exception INTERNAL_ERROR of a number that
-- cannot be read, of a consumer that cannot be recovered and of an event that cannot be encoded.
-- Where the command is PUBLISH, no id that it may use is stored already, and the new ids are
-- distinct; where it is DLQ_REQUEUE, the message is neither in flight nor delayed in the dead-letter
-- queue. No maximum of attempts, stored or given, is above 1025, so that no retry delay overflows.
pub handle-IsConsistent :
    (w : World) (ctx : Context) (meta : Meta) (payload : Bytes) (h : Handler)
    → ((i j : ℕ) → w.uuids i ≡ w.uuids j → i ≡ j)
    → (method_of (w.lower (or_blank meta.cmd)) ≡ some publish
        → AreNew w.uuids none 0 h.runtime.engine)
    → (method_of (w.lower (or_blank meta.cmd)) ≡ some publish
        → AreNew w.uuids meta.message_id 0 h.runtime.engine)
    → (method_of (w.lower (or_blank meta.cmd)) ≡ some requeue → IsIdleLetter meta h.runtime.engine)
    → in_range h.runtime.engine ≡ true
    → attempts_in_range meta.max_attempts ≡ true
    → IsConsistent h.runtime.engine
    → IsConsistent (handle w ctx meta payload h).1.runtime.engine
unfolding handle dispatch
handle-IsConsistent w ctx meta payload h distinct new given idle small few k =
    elim (List-cases (or_blank meta.cmd)) [
      | inl blank ↦ rw (blank, handle) k
      | inr (x, s, name) ↦
          elim (Verdict-cases (authorize w.upper ctx.principal (x ∷ s) w.config.auth_enabled)) [
            | inr (inl denied) ↦ rw (name, handle) (rw denied k)
            | inr (inr (role, cmd, denied)) ↦ rw (name, handle) (rw denied k)
            | inl may ↦ elim (Option-cases (method_of (w.lower (x ∷ s)))) [
              | inl unknown ↦ rw (name, handle) (rw may (rw (unknown, dispatch) k))
              | inr (c, known) ↦
                  let is_method : method_of (w.lower (or_blank meta.cmd)) ≡ some c =
                    rw name known in
                  rw (name, handle)
                    (rw may (
                      rw (known, dispatch)
                        (answered_keeps _ (
                          run_method-IsConsistent w ctx meta payload h distinct c
                            (λ e. new (is_method ∙ ap some e)) (λ e. given (is_method ∙ ap some e))
                            (λ e. idle (is_method ∙ ap some e)) k))))
            ]
          ]
    ]
