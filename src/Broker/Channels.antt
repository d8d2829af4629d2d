-- ===== src/Broker/Channels.antt =====
-- The commands on channels.
use one_open_broker.Prelude.{List, [], ◌∷◌, Str, codes}
use one_open_broker.Core.Message.{Bytes}
use one_open_broker.Pubsub.State.{
  PubSub, subscribers, subscribe, unsubscribe, publish, list_channels,
}
use one_open_broker.Broker.Replies.{
  Meta, invalid_command, nothing, channel_name, fanned, channel_rows, Answer, or_blank, refuse,
  accept,
}
use one_open_broker.Broker.State.{Handler, Context, Outgoing, pubsub_message, on_runtime, send_to}

abbrev pub with_pubsub : PubSub → Handler → Handler
with_pubsub p h = on_runtime (λ rt. record rt { pubsub = p }) h

unfoldable pub cmd_subscribe : Context → Meta → Handler → Handler × Answer
cmd_subscribe ctx meta h = elim (or_blank meta.channel) [
  | [] ↦ (h, refuse invalid_command (codes "channel required"))
  | c ∷ s ↦ (
    with_pubsub (subscribe ctx.connection_id (c ∷ s) h.runtime.pubsub) h,
    accept (channel_name (c ∷ s)),
  )
]

unfoldable pub cmd_unsubscribe : Context → Meta → Handler → Handler × Answer
cmd_unsubscribe ctx meta h = (
  with_pubsub (unsubscribe ctx.connection_id (or_blank meta.channel) h.runtime.pubsub).0 h,
  accept nothing,
)

-- The sends of one fan-out, in the order of the subscribers.
unfoldable pub send_all : List Str → Outgoing → Handler → Handler
send_all [] x h = h
send_all (connection_id ∷ ids) x h = send_all ids x (send_to connection_id x h).0

-- `_fanout_pubsub` for every subscriber. A connection subscribes to a channel once, so whether it
-- takes the message does not hang on the sends before.
unfoldable pub cmd_publish_channel : Meta → Bytes → Handler → Handler × Answer
cmd_publish_channel meta payload h = elim (or_blank meta.channel) [
  | [] ↦ (h, refuse invalid_command (codes "channel required"))
  | c ∷ s ↦
      let message = pubsub_message (c ∷ s) payload in
      let ids = subscribers (c ∷ s) h.runtime.pubsub in
      let (p, f) = publish (c ∷ s) (λ id. (send_to id message h).1) h.runtime.pubsub in
      (
        record (with_pubsub p (send_all ids message h)) { last_slow = f.slow },
        accept (fanned f.delivered f.slow),
      )
]

unfoldable pub cmd_list_channels : Meta → Handler → Handler × Answer
cmd_list_channels meta h =
    let (p, rows) = list_channels h.runtime.pubsub in (with_pubsub p h, accept (channel_rows rows))
