-- ===== src/Broker/Replies.antt =====
-- What a command is given and what it answers. The metadata of a command is the record of the fields
-- that the handler reads, each with its documented type; a field that is missing or null is `none`,
-- missing `queues` are an empty list, and `requeue` is `bool(meta.get("requeue", True))`.
use one_open_broker.Prelude.{ℕ, Bool, Option, none, some, List, [], ◌∷◌, Str}
use one_open_broker.Prelude.Int.{ℤ}
use one_open_broker.Core.Message.{Message, Bytes}
use one_open_broker.Queue.Info.{QueueInfo}
use one_open_broker.Queue.DeadLetters.{DlqInfo}
use one_open_broker.Pubsub.State.{ChannelRow}
use one_open_broker.Monitoring.Metrics.{Stats}
use one_open_broker.Monitoring.Introspection.{ConsumerRow}

-- A value that the handler gives to `int`, which raises `ValueError` or `TypeError` for some.
pub data Given {ℓ} (A : Type ℓ) : Type ℓ where
  readable : A → Given A
  unreadable : Given A

pub record Meta : Type 0 where
  pub cmd : Option Str
  pub token : Option Str
  pub username : Option Str
  pub user : Option Str
  pub password : Option Str
  pub name : Option Str
  pub type : Option Str
  pub exchange : Option Str
  pub queue : Option Str
  pub queues : List Str
  pub routing_key : Option Str
  pub consumer_id : Option Str
  pub message_id : Option Str
  pub id : Option Str
  pub tag : Option Str
  pub channel : Option Str
  pub max_length : Option ℕ
  pub visibility_timeout : Option ℕ
  pub max_attempts : Option ℕ
  pub priority : Option (Given ℤ)
  pub prefetch : Option (Given ℕ)
  pub headers : Option Bytes
  pub requeue : Bool

-- The codes of protocol/errors.py that the handler and the server send.
pub data Code : Type 0 where
  already_acked forbidden internal_error invalid_command not_consumer not_found queue_full
        unauthorized unknown_delivery invalid_frame frame_too_large :
      Code

-- The fields of a reply, one constructor for each shape.
pub data Extra : Type 0 where
  nothing pong empty : Extra
  identity : Str → Str → Extra
  info : Str → Str → ℕ → Extra
  stats : Stats → Extra
  exchange_row : Str → Str → Extra
  queue_name : Str → Extra
  queue_row : QueueInfo → Extra
  queue_rows : List QueueInfo → Extra
  published : Str → List Str → Extra
  got : Message → Str → Extra
  consuming : Str → ℕ → Extra
  prefetching : ℕ → Extra
  consumer_rows : List ConsumerRow → Extra
  channel_name : Str → Extra
  fanned : ℕ → List Str → Extra
  channel_rows : List ChannelRow → Extra
  dlq_row : DlqInfo → Extra

-- `_ok` and `_err`. The payload of a reply to GET is that of its message.
pub data Reply : Type 0 where
  ok : Extra → Reply
  err : Code → Str → Reply

-- What a command's method does: it returns, or raises an exception.
pub data Answer : Type 0 where
  returns : Reply → Answer
  raises : Answer

-- `x or ""` of a text that may be missing
abbrev pub or_blank : Option Str → Str
or_blank none = []
or_blank (some s) = s

-- `x or y` of two texts that may be missing
abbrev pub either : Option Str → Option Str → Str
either none y = or_blank y
either (some []) y = or_blank y
either (some (c ∷ s)) y = c ∷ s

abbrev pub refuse : Code → Str → Answer
refuse code message = returns (err code message)

abbrev pub accept : Extra → Answer
accept extra = returns (ok extra)
