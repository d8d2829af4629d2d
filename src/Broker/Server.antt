-- ===== src/Broker/Server.antt =====
-- broker/server.py: connections that come and go, the frames that they send, and the ticker. The
-- sockets and tasks of asyncio are left out; a task that is created to drop a connection is an entry
-- of `dropping`.
use one_open_broker.Prelude.{
  ℕ, Bool, true, false, not, ◌||◌, Option, none, some, List, [], ◌∷◌, ◌++◌, Str, codes,
  if◌then◌else◌, length, leb, ◌==◌,
}
use one_open_broker.Dict.{Dict, get, put, remove, has}
use one_open_broker.Core.Message.{Bytes}
use one_open_broker.Queue.Timers.{tick}
use one_open_broker.Queue.Info.{list_queues}
use one_open_broker.Consumers.State.{Manager, disconnect_connection}
use one_open_broker.Pubsub.State.{disconnect}
use one_open_broker.Monitoring.Metrics.{Metrics, on_connect, on_disconnect, add_received}
use one_open_broker.Protocol.Frames.{
  Frame, ErrorCode, frame_too_large, truncated_header, bad_magic, unsupported_version,
  checksum_mismatch, ok, fail, Decoded,
}
use one_open_broker.Protocol.Reader.{FrameReader, new_reader, feed}
use one_open_broker.Broker.Replies.{Meta, Reply, err, invalid_frame, frame_too_large as too_large}
use one_open_broker.Broker.State.{
  Config, Encoder, Handler, Context, new_context, Outgoing, response, heartbeat, slow_consumer,
  manager_of, with_manager, on_runtime, send_to,
}
use one_open_broker.Broker.Access.{World}
use one_open_broker.Broker.Pump.{pump_all}
use one_open_broker.Broker.Handle.{handle}

-- What one `_read_loop` holds of its connection, whether the server still knows the connection or not:
-- its frame reader and its context. The outbound buffer stands in the handler's `senders`; `_drop`
-- takes it out there and closes the connection in one go, so what is sent later finds none.
pub record Connection : Type 0 where
  pub reader : FrameReader
  pub context : Context

-- `connections` has the keys of the dictionary of that name, and `loops` the reading loops that run.
pub record Server : Type 0 where
  pub handler : Handler
  pub connections : Dict (Unit {0})
  pub loops : Dict Connection
  pub accepting : Bool
  pub dropping : List Str

abbrev pub on_handler : (Handler → Handler) → Server → Server
on_handler f s = record s { handler = f s.handler }

abbrev pub count : (Metrics → Metrics) → Handler → Handler
count f h = on_runtime (λ rt. record rt { metrics = f rt.metrics }) h

-- `_on_connect` up to the reading loop, where `id` is the new `uuid4`; the truth value says whether
-- the connection was taken.
unfoldable pub connect : Config → Str → Server → Server × Bool
connect config id s =
    if not s.accepting || not s.handler.runtime.ready
    then (s, false)
    else if leb config.max_connections s.handler.runtime.metrics.connections
    then (s, false)
    else (
      record s {
        handler = count on_connect (record s.handler {
          senders =
              put id (record { limit = config.outbound_buffer; items = []; closed = false })
                s.handler.senders;
        });
        connections = put id tt s.connections;
        loops =
            put id (record { reader = new_reader config.max_frame_size; context = new_context id })
              s.loops;
      },
      true,
    )

-- The rest of `_drop`, given what `disconnect_connection` left; if it raised, the connection is not
-- taken off the count.
unfoldable pub dropped : Manager × Option ℕ → Handler → Handler
dropped (m, none) h = on_runtime (with_manager m) h
dropped (m, some n) h = count on_disconnect (on_runtime (with_manager m) h)

-- `_drop`
unfoldable pub drop : ℕ → Str → Server → Server
drop now id s =
    if has id s.connections
    then (let left =
          on_runtime (λ rt. record rt { pubsub = disconnect id rt.pubsub })
            (record s.handler { senders = remove id s.handler.senders }) in
        record s {
          handler = dropped (disconnect_connection now id (manager_of left.runtime)) left;
          connections = remove id s.connections;
        })
    else s

-- The loop ends, and `_on_connect` drops the connection.
unfoldable pub end_loop : ℕ → Str → Server → Server
end_loop now id s = drop now id (record s { loops = remove id s.loops })

-- The test at the top of the loop: the loop of a connection that was dropped ends.
unfoldable pub next_round : ℕ → Str → Server → Server
next_round now id s = if has id s.connections then s else end_loop now id s

-- `await conn.send(...)` waits until there is room, so nothing but a closed connection refuses it.
unfoldable pub send : Str → Outgoing → Handler → Handler
send id x h = elim (get id h.senders) [
  | none ↦ h
  | some o ↦
      if o.closed
      then h
      else record h { senders = put id (record o { items = o.items ++ x ∷ [] }) h.senders }
]

-- The code and the text of a `ProtocolError`.
unfoldable pub protocol_error : ErrorCode → Reply
protocol_error frame_too_large = err too_large (codes "frame exceeds max_frame_size")
protocol_error truncated_header = err invalid_frame (codes "truncated header")
protocol_error bad_magic = err invalid_frame (codes "bad magic")
protocol_error unsupported_version = err invalid_frame (codes "unsupported version")
protocol_error checksum_mismatch = err invalid_frame (codes "checksum mismatch")

-- `_disconnect_slow`
unfoldable pub disconnect_slow : Str → Server → Server
disconnect_slow id s =
    if has id s.connections
    then record s {
      handler = (send_to id slow_consumer s.handler).0;
      dropping = s.dropping ++ id ∷ [];
    }
    else s

unfoldable pub disconnect_all : List Str → Server → Server
disconnect_all [] s = s
disconnect_all (id ∷ ids) s = disconnect_all ids (disconnect_slow id s)

-- What follows the reply to a command; false is a `return` of the reading loop.
unfoldable pub after_reply : ℕ → Str → Context → Reply → Server → Server × Bool
after_reply request_id id ctx reply s =
    let (h, took) = send_to id (response request_id reply) s.handler in
    if took
    then (if ctx.must_close then (record s { handler = h }, false) else (
      disconnect_all h.last_slow (record s { handler = record h { last_slow = [] } }),
      true,
    ))
    else (record s { handler = send id slow_consumer h }, false)

module _ (crc32 : Bytes → ℕ) (parse : Bytes → Option Meta) (metadata_error : Str) where
  -- A frame of the type FRAME_COMMAND, which the loop handles for a dropped connection as well. `parse` stands for `parse_metadata` and the reading of the
  -- fields; where it has no answer, `parse_metadata` raises with the text `metadata_error`.
  unfoldable pub on_command : World → Str → Frame → Connection → Server → Server × Bool
  on_command w id f c s = elim (parse f.metadata) [
    | none ↦
        (on_handler (send id (response f.request_id (err invalid_frame metadata_error))) s, false)
    | some meta ↦
        let (ctx, h, reply) = handle w c.context meta f.payload s.handler in
        after_reply f.request_id id ctx reply
          (record s { handler = h; loops = put id (record c { context = ctx }) s.loops })
  ]

  unfoldable pub on_frame : World → Str → Frame → Server → Server × Bool
  on_frame w id f s =
      if f.frame_type == 4
      then (record s { handler = (send_to id (heartbeat f.request_id) s.handler).0 }, true)
      else if f.frame_type == 1
      then elim (get id s.loops) [ none ↦ (s, false) | some c ↦ on_command w id f c s ]
      else (s, true)

  unfoldable pub on_frames : World → Str → List Frame → Server → Server × Bool
  on_frames w id [] s = (s, true)
  on_frames w id (f ∷ fs) s =
      let (s', goes_on) = on_frame w id f s in
      let rest = on_frames w id fs s' in if goes_on then rest else (s', false)

  -- What `feed` returned, or raised. It always answers.
  unfoldable pub on_fed :
      World
      → Str
      → Connection
      → FrameReader × Option (Decoded (List Frame))
      → Server
      → Server × Bool
  on_fed w id c (reader, none) s = (s, false)
  on_fed w id c (reader, some (fail code)) s =
      (on_handler (send id (response 0 (protocol_error code))) s, false)
  on_fed w id c (reader, some (ok frames)) s =
      on_frames w id frames (record s { loops = put id (record c { reader = reader }) s.loops })

  -- One round of `_read_loop`, for bytes that have been read; none at all is the end of the stream. A
  -- connection that was dropped in the meantime makes no difference to the round.
  unfoldable pub receive : World → Str → Bytes → Server → Server
  receive w id [] s = end_loop w.now id s
  receive w id (b ∷ bytes) s = elim (get id s.loops) [
    | none ↦ s
    | some c ↦
        let counted = on_handler (count (add_received (length (b ∷ bytes)))) s in
        let (s', goes_on) = on_fed w id c (feed crc32 (b ∷ bytes) c.reader) counted in
        if goes_on then s' else end_loop w.now id s'
  ]

-- One round of `_ticker`, which catches the exceptions.
unfoldable pub tick_round : Encoder → ℕ → Server → Server
tick_round encodes now s =
    let ticked = on_runtime (λ rt. record rt { engine = (tick now none rt.engine).0 }) s.handler in
    record s { handler = (pump_all encodes now (list_queues ticked.runtime.engine) ticked).0 }

-- A task that `_disconnect_slow` created.
unfoldable pub drop_next : ℕ → Server → Server
drop_next now s = elim s.dropping [ [] ↦ s | id ∷ ids ↦ drop now id (record s { dropping = ids }) ]
