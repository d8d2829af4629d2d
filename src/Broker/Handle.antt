-- ===== src/Broker/Handle.antt =====
-- `Handler.handle`: authorization, the choice of the method, and the exceptions that it catches.
use one_open_broker.Prelude.{
  Option, none, some, List, [], ◌∷◌, ◌++◌, Str, codes, str_eq, if◌then◌else◌,
}
use one_open_broker.Core.Message.{Bytes}
use one_open_broker.Security.Acl.{allowed, unauthorized, forbidden, authorize}
use one_open_broker.Broker.Replies.{
  Meta, Reply, err, Answer, returns, raises, pong, or_blank, accept, internal_error,
  invalid_command, unauthorized as unauthorized_code, forbidden as forbidden_code,
}
use one_open_broker.Broker.State.{Handler, Context}
use one_open_broker.Broker.Queues.{
  cmd_declare_exchange, cmd_delete_exchange, cmd_declare_queue, cmd_delete_queue, cmd_queue_info,
  cmd_list_queues, cmd_bind, cmd_unbind, cmd_dlq_info, cmd_dlq_requeue,
}
use one_open_broker.Broker.Deliveries.{
  cmd_publish, cmd_get, cmd_consume, cmd_cancel, cmd_ack, cmd_nack, cmd_qos,
}
use one_open_broker.Broker.Channels.{
  cmd_subscribe, cmd_unsubscribe, cmd_publish_channel, cmd_list_channels,
}
use one_open_broker.Broker.Access.{
  World, count_failure, cmd_auth, cmd_info, cmd_stats, cmd_list_consumers,
}

-- The methods `cmd_...` of the handler.
pub data Command : Type 0 where
  ping auth info stats declare_exchange delete_exchange declare_queue delete_queue queue_info
        list_queues bind unbind publish fetch consume cancel ack nack qos list_consumers subscribe
        unsubscribe publish_channel list_channels dlq_info dlq_requeue :
      Command

abbrev pub methods : List (Str × Command)
methods =
    (codes "ping", ping)
    ∷ (codes "auth", auth)
    ∷ (codes "info", info)
    ∷ (codes "stats", stats)
    ∷ (codes "declare_exchange", declare_exchange)
    ∷ (codes "delete_exchange", delete_exchange)
    ∷ (codes "declare_queue", declare_queue)
    ∷ (codes "delete_queue", delete_queue)
    ∷ (codes "queue_info", queue_info)
    ∷ (codes "list_queues", list_queues)
    ∷ (codes "bind", bind)
    ∷ (codes "unbind", unbind)
    ∷ (codes "publish", publish)
    ∷ (codes "get", fetch)
    ∷ (codes "consume", consume)
    ∷ (codes "cancel", cancel)
    ∷ (codes "ack", ack)
    ∷ (codes "nack", nack)
    ∷ (codes "qos", qos)
    ∷ (codes "list_consumers", list_consumers)
    ∷ (codes "subscribe", subscribe)
    ∷ (codes "unsubscribe", unsubscribe)
    ∷ (codes "publish_channel", publish_channel)
    ∷ (codes "list_channels", list_channels)
    ∷ (codes "dlq_info", dlq_info)
    ∷ (codes "dlq_requeue", dlq_requeue)
    ∷ []

unfoldable pub find_method : Str → List (Str × Command) → Option Command
find_method s [] = none
find_method s ((name, c) ∷ ms) =
    let rest = find_method s ms in if str_eq name s then some c else rest

-- `getattr(self, f"cmd_{cmd.lower()}", None)`
unfoldable pub method_of : Str → Option Command
method_of s = find_method s methods

-- A method that leaves the context of the connection as it is.
abbrev pub keep : Context → Handler × Answer → Context × Handler × Answer
keep ctx (h, answer) = (ctx, h, answer)

unfoldable pub run_method :
    World → Command → Context → Meta → Bytes → Handler → Context × Handler × Answer
run_method w ping ctx meta payload h = (ctx, h, accept pong)
run_method w auth ctx meta payload h = let (ctx', answer) = cmd_auth w ctx meta in (ctx', h, answer)
run_method w info ctx meta payload h = (ctx, h, cmd_info w)
run_method w stats ctx meta payload h = keep ctx (cmd_stats w h)
run_method w declare_exchange ctx meta payload h = keep ctx (cmd_declare_exchange meta h)
run_method w delete_exchange ctx meta payload h = keep ctx (cmd_delete_exchange meta h)
run_method w declare_queue ctx meta payload h = keep ctx (cmd_declare_queue meta h)
run_method w delete_queue ctx meta payload h = keep ctx (cmd_delete_queue meta h)
run_method w queue_info ctx meta payload h = keep ctx (cmd_queue_info meta h)
run_method w list_queues ctx meta payload h = keep ctx (cmd_list_queues meta h)
run_method w bind ctx meta payload h = keep ctx (cmd_bind meta h)
run_method w unbind ctx meta payload h = keep ctx (cmd_unbind meta h)
run_method w publish ctx meta payload h =
    keep ctx (cmd_publish w.encodes w.now w.uuids meta payload h)
run_method w fetch ctx meta payload h = keep ctx (cmd_get w.now ctx meta h)
run_method w consume ctx meta payload h =
    keep ctx (cmd_consume w.encodes w.now (w.uuids 0) ctx meta h)
run_method w cancel ctx meta payload h = keep ctx (cmd_cancel w.now meta h)
run_method w ack ctx meta payload h = keep ctx (cmd_ack w.encodes w.now meta h)
run_method w nack ctx meta payload h = keep ctx (cmd_nack w.encodes w.now meta h)
run_method w qos ctx meta payload h = cmd_qos w.now ctx meta h
run_method w list_consumers ctx meta payload h = keep ctx (cmd_list_consumers w.now h)
run_method w subscribe ctx meta payload h = keep ctx (cmd_subscribe ctx meta h)
run_method w unsubscribe ctx meta payload h = keep ctx (cmd_unsubscribe ctx meta h)
run_method w publish_channel ctx meta payload h = keep ctx (cmd_publish_channel meta payload h)
run_method w list_channels ctx meta payload h = keep ctx (cmd_list_channels meta h)
run_method w dlq_info ctx meta payload h = keep ctx (cmd_dlq_info meta h)
run_method w dlq_requeue ctx meta payload h = keep ctx (cmd_dlq_requeue w.encodes w.now meta h)

-- `except Exception`: what the method did before it raised stays done.
abbrev pub answered : Context × Handler × Answer → Context × Handler × Reply
answered (ctx, h, returns reply) = (ctx, h, reply)
answered (ctx, h, raises) = (ctx, h, err internal_error (codes "internal error"))

-- The part of `handle` that follows the authorization.
unfoldable pub dispatch : World → Str → Context → Meta → Bytes → Handler → Context × Handler × Reply
dispatch w cmd ctx meta payload h = elim (method_of (w.lower cmd)) [
  | none ↦ (ctx, h, err invalid_command (codes "unknown command " ++ cmd))
  | some c ↦ answered (run_method w c ctx meta payload h)
]

-- The message of a role that may not give a command.
abbrev pub forbidden_message : Str → Str → Str
forbidden_message role cmd = codes "role " ++ (role ++ (codes " cannot " ++ cmd))

unfoldable pub handle : World → Context → Meta → Bytes → Handler → Context × Handler × Reply
handle w ctx meta payload h = elim (or_blank meta.cmd) [
  | [] ↦ (ctx, h, err invalid_command (codes "missing cmd"))
  | c ∷ s ↦ elim (authorize w.upper ctx.principal (c ∷ s) w.config.auth_enabled) [
    | allowed ↦ dispatch w (c ∷ s) ctx meta payload h
    | unauthorized ↦ (count_failure ctx, h, err unauthorized_code (codes "authentication required"))
    | forbidden role cmd ↦ (ctx, h, err forbidden_code (forbidden_message role cmd))
  ]
]
