-- ===== src/Broker/Steps.antt =====
-- What happens to the server, one event after the other.
use one_open_broker.Prelude.{
  ℕ, ◌≡◌, ◌∙◌, refl, true, not, ◌||◌, Option, none, some, List, [], ◌∷◌, Str, leb, ◌==◌, Bool-cases,
  Option-cases, List-cases, inl, inr,
}
use one_open_broker.Dict.{get, has, remove}
use one_open_broker.Core.Message.{Bytes}
use one_open_broker.Queue.Range.{in_range, attempts_in_range}
use one_open_broker.Queue.Consistent.{IsConsistent}
use one_open_broker.Queue.Consistent.Timers.{tick-IsConsistent}
use one_open_broker.Routing.Consistent.{AreNew}
use one_open_broker.Consumers.State.{Manager, disconnect_connection}
use one_open_broker.Consumers.Consistent.{disconnect_connection-IsConsistent}
use one_open_broker.Protocol.Frames.{Frame}
use one_open_broker.Broker.Replies.{Meta, Reply, or_blank}
use one_open_broker.Broker.State.{
  Config, Encoder, Handler, Context, Outgoing, response, manager_of, send_to,
}
use one_open_broker.Broker.Access.{World}
use one_open_broker.Broker.Pumping.{runtime-send_to, pump_all-IsConsistent}
use one_open_broker.Broker.Handle.{publish, dlq_requeue, method_of}
use one_open_broker.Broker.Consistent.{IsIdleLetter, handle-IsConsistent}
use one_open_broker.Broker.Server.{
  Connection, Server, connect, dropped, drop, end_loop, next_round, send, disconnect_slow,
  disconnect_all, after_reply, on_command, on_frame, tick_round, drop_next,
}

abbrev pub IsConsistentServer : Server → Type 0
IsConsistentServer s = IsConsistent s.handler.runtime.engine

dropped-IsConsistent :
    (x : Manager × Option ℕ) (h : Handler)
    → IsConsistent x.0.engine
    → IsConsistent (dropped x h).runtime.engine
unfolding dropped
dropped-IsConsistent (m, none) h k = k
dropped-IsConsistent (m, some n) h k = k

drop-IsConsistent :
    (now : ℕ) (id : Str) (s : Server) → IsConsistentServer s → IsConsistentServer (drop now id s)
unfolding drop
drop-IsConsistent now id s k = elim (Bool-cases (has id s.connections)) [
  | inr unknown ↦ rw (unknown, drop) k
  | inl known ↦
      rw (known, drop)
        (dropped-IsConsistent (disconnect_connection now id (manager_of s.handler.runtime)) _
          (disconnect_connection-IsConsistent now id (manager_of s.handler.runtime) k))
]

end_loop-IsConsistent :
    (now : ℕ) (id : Str) (s : Server)
    → IsConsistentServer s
    → IsConsistentServer (end_loop now id s)
unfolding end_loop
end_loop-IsConsistent now id s k =
    drop-IsConsistent now id (record s { loops = remove id s.loops }) k

next_round-IsConsistent :
    (now : ℕ) (id : Str) (s : Server)
    → IsConsistentServer s
    → IsConsistentServer (next_round now id s)
unfolding next_round
next_round-IsConsistent now id s k = elim (Bool-cases (has id s.connections)) [
  | inl known ↦ rw (known, next_round) k
  | inr closed ↦ rw (closed, next_round) (end_loop-IsConsistent now id s k)
]

drop_next-IsConsistent :
    (now : ℕ) (s : Server) → IsConsistentServer s → IsConsistentServer (drop_next now s)
unfolding drop_next
drop_next-IsConsistent now s k = elim (List-cases s.dropping) [
  | inl nothing ↦ rw (nothing, drop_next) k
  | inr (id, ids, more) ↦
      rw (more, drop_next) (drop-IsConsistent now id (record s { dropping = ids }) k)
]

connect-IsConsistent :
    (config : Config) (id : Str) (s : Server)
    → IsConsistentServer s
    → IsConsistentServer (connect config id s).0
unfolding connect
connect-IsConsistent config id s k =
    elim (Bool-cases (not s.accepting || not s.handler.runtime.ready)) [
      | inl closed ↦ rw (closed, connect) k
      | inr opened ↦
          elim (Bool-cases (leb config.max_connections s.handler.runtime.metrics.connections)) [
            | inl full ↦ rw (opened, connect) (rw full k)
            | inr room ↦ rw (opened, connect) (rw room k)
          ]
    ]

tick_round-IsConsistent :
    (encodes : Encoder) (now : ℕ) (s : Server)
    → IsConsistentServer s
    → IsConsistentServer (tick_round encodes now s)
unfolding tick_round
tick_round-IsConsistent encodes now s k =
    pump_all-IsConsistent encodes now _ _ (tick-IsConsistent now none s.handler.runtime.engine k)

runtime-send : (id : Str) (x : Outgoing) (h : Handler) → (send id x h).runtime ≡ h.runtime
unfolding send
runtime-send id x h = elim (Option-cases (get id h.senders)) [
  | inl gone ↦ rw (gone, send) refl
  | inr (o, there) ↦ elim (Bool-cases o.closed) [
    | inl shut ↦ rw (there, send) (rw shut refl)
    | inr opened ↦ rw (there, send) (rw opened refl)
  ]
]

runtime-disconnect_all :
    (ids : List Str) (s : Server) → (disconnect_all ids s).handler.runtime ≡ s.handler.runtime
unfolding disconnect_all disconnect_slow
runtime-disconnect_all [] s = refl
runtime-disconnect_all (id ∷ ids) s =
    runtime-disconnect_all ids (disconnect_slow id s) ∙ (elim (Bool-cases (has id s.connections)) [
      | inl known ↦ rw (known, disconnect_slow) (runtime-send_to id _ s.handler)
      | inr gone ↦ rw (gone, disconnect_slow) refl
    ])

runtime-after_reply :
    (request_id : ℕ) (id : Str) (ctx : Context) (reply : Reply) (s : Server)
    → (after_reply request_id id ctx reply s).0.handler.runtime ≡ s.handler.runtime
unfolding after_reply
runtime-after_reply request_id id ctx reply s =
    let x = response request_id reply in
    let sent = runtime-send_to id x s.handler in
    elim (Bool-cases (send_to id x s.handler).1) [
      | inr refused ↦ rw (refused, after_reply) (runtime-send id _ _ ∙ sent)
      | inl took ↦ elim (Bool-cases ctx.must_close) [
        | inl closes ↦ rw (took, after_reply) (rw closes sent)
        | inr stays ↦ rw (took, after_reply) (rw stays (runtime-disconnect_all _ _ ∙ sent))
      ]
    ]

module _ (crc32 : Bytes → ℕ) (parse : Bytes → Option Meta) (metadata_error : Str) where
  -- The events of the server, in any order; a frame is handled as long as the loop of its connection
  -- runs. A frame with a command meets the conditions of the handler: where it
  -- is PUBLISH, its ids are new and distinct; where it is DLQ_REQUEUE, the letter is idle. No maximum of
  -- attempts is out of range.
  pub data Reach : Server → Server → Type 0 where
    here : {s : Server} → Reach s s
    connects :
        {s s' : Server} (config : Config) (id : Str) → Reach s s' → Reach s (connect config id s').0
    drops :
        {s s' : Server} (now : ℕ) (id : Str)
        → in_range s'.handler.runtime.engine ≡ true
        → Reach s s'
        → Reach s (drop now id s')
    drops_next :
        {s s' : Server} (now : ℕ)
        → in_range s'.handler.runtime.engine ≡ true
        → Reach s s'
        → Reach s (drop_next now s')
    ticks :
        {s s' : Server} (encodes : Encoder) (now : ℕ)
        → in_range s'.handler.runtime.engine ≡ true
        → Reach s s'
        → Reach s (tick_round encodes now s')
    ends_loop :
        {s s' : Server} (now : ℕ) (id : Str)
        → in_range s'.handler.runtime.engine ≡ true
        → Reach s s'
        → Reach s (end_loop now id s')
    rounds :
        {s s' : Server} (now : ℕ) (id : Str)
        → in_range s'.handler.runtime.engine ≡ true
        → Reach s s'
        → Reach s (next_round now id s')
    frames :
        {s s' : Server} (w : World) (id : Str) (f : Frame)
        → ((i j : ℕ) → w.uuids i ≡ w.uuids j → i ≡ j)
        → ((meta : Meta)
            → parse f.metadata ≡ some meta
            → method_of (w.lower (or_blank meta.cmd)) ≡ some publish
            → AreNew w.uuids none 0 s'.handler.runtime.engine
              × AreNew w.uuids meta.message_id 0 s'.handler.runtime.engine)
        → ((meta : Meta)
            → parse f.metadata ≡ some meta
            → method_of (w.lower (or_blank meta.cmd)) ≡ some dlq_requeue
            → IsIdleLetter meta s'.handler.runtime.engine)
        → in_range s'.handler.runtime.engine ≡ true
        → ((meta : Meta)
            → parse f.metadata ≡ some meta
            → attempts_in_range meta.max_attempts ≡ true)
        → Reach s s'
        → Reach s (on_frame crc32 parse metadata_error w id f s').0

  module _ (w : World) (id : Str) (f : Frame) (s : Server)
      (distinct : (i j : ℕ) → w.uuids i ≡ w.uuids j → i ≡ j)
      (new : (meta : Meta)
        → parse f.metadata ≡ some meta
        → method_of (w.lower (or_blank meta.cmd)) ≡ some publish
        → AreNew w.uuids none 0 s.handler.runtime.engine
          × AreNew w.uuids meta.message_id 0 s.handler.runtime.engine)
      (idle : (meta : Meta)
        → parse f.metadata ≡ some meta
        → method_of (w.lower (or_blank meta.cmd)) ≡ some dlq_requeue
        → IsIdleLetter meta s.handler.runtime.engine)
      (small : in_range s.handler.runtime.engine ≡ true)
      (few : (meta : Meta)
        → parse f.metadata ≡ some meta
        → attempts_in_range meta.max_attempts ≡ true) where
    on_command-IsConsistent :
        (c : Connection)
        → IsConsistentServer s
        → IsConsistentServer (on_command crc32 parse metadata_error w id f c s).0
    unfolding on_command
    on_command-IsConsistent c k = elim (Option-cases (parse f.metadata)) [
      | inl bad ↦ rw (bad, on_command) (rw (runtime-send) k)
      | inr (meta, read) ↦
          rw (read, on_command)
            (rw (runtime-after_reply) (
              handle-IsConsistent w c.context meta f.payload s.handler distinct
                (λ e. (new meta read e).0) (λ e. (new meta read e).1) (idle meta read) small
                (few meta read) k))
    ]

    on_frame-IsConsistent :
        IsConsistentServer s → IsConsistentServer (on_frame crc32 parse metadata_error w id f s).0
    unfolding on_frame
    on_frame-IsConsistent k = elim (Bool-cases (f.frame_type == 4)) [
      | inl beat ↦ rw (beat, on_frame) (rw (runtime-send_to) k)
      | inr other ↦ elim (Bool-cases (f.frame_type == 1)) [
        | inr ignored ↦ rw (other, on_frame) (rw ignored k)
        | inl command ↦ elim (Option-cases (get id s.loops)) [
          | inl gone ↦ rw (other, on_frame) (rw command (rw gone k))
          | inr (c, there) ↦
              rw (other, on_frame) (rw command (rw there (on_command-IsConsistent c k)))
        ]
      ]
    ]

  -- In every state that a server reaches from one whose queue engine's indexes are consistent, by
  -- connections that come and go, frames that arrive, also of a connection that was dropped while its
  -- loop still ran, and ticks, they are consistent. The new ids of
  -- each frame are distinct; where its command is PUBLISH, no id that it may use is stored already;
  -- where it is DLQ_REQUEUE, the message is neither in flight nor delayed in the dead-letter queue.
  -- On the way no maximum of attempts is above 1025, so that no retry delay overflows.
  pub Reach-IsConsistentServer :
      (s s' : Server) → Reach s s' → IsConsistentServer s → IsConsistentServer s'
  Reach-IsConsistentServer s s' here k = k
  Reach-IsConsistentServer s _ (connects {s' = m} config id r) k =
      connect-IsConsistent config id m (Reach-IsConsistentServer s m r k)
  Reach-IsConsistentServer s _ (drops {s' = m} now id small r) k =
      drop-IsConsistent now id m (Reach-IsConsistentServer s m r k)
  Reach-IsConsistentServer s _ (drops_next {s' = m} now small r) k =
      drop_next-IsConsistent now m (Reach-IsConsistentServer s m r k)
  Reach-IsConsistentServer s _ (ticks {s' = m} encodes now small r) k =
      tick_round-IsConsistent encodes now m (Reach-IsConsistentServer s m r k)
  Reach-IsConsistentServer s _ (ends_loop {s' = m} now id small r) k =
      end_loop-IsConsistent now id m (Reach-IsConsistentServer s m r k)
  Reach-IsConsistentServer s _ (rounds {s' = m} now id small r) k =
      next_round-IsConsistent now id m (Reach-IsConsistentServer s m r k)
  Reach-IsConsistentServer s _ (frames {s' = m} w id f distinct new idle small few r) k =
      on_frame-IsConsistent w id f m distinct new idle small few (Reach-IsConsistentServer s m r k)
