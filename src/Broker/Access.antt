-- ===== src/Broker/Access.antt =====
-- PING, AUTH, INFO, STATS and LIST_CONSUMERS, and what the handler reads of its surroundings.
use one_open_broker.Prelude.{ℕ, ◌+◌, true, some, Str, codes, if◌then◌else◌, leb, length}
use one_open_broker.Core.Message.{Bytes}
use one_open_broker.Pubsub.State.{list_channels}
use one_open_broker.Security.Auth.{
  Principal, AuthResult, accepted, denied, unknown_role, authenticate,
}
use one_open_broker.Monitoring.Metrics.{FileSizes, broker_stats}
use one_open_broker.Monitoring.Introspection.{list_consumer_rows}
use one_open_broker.Broker.Replies.{
  Meta, unauthorized, identity, info, stats, consumer_rows, Answer, raises, either, refuse, accept,
}
use one_open_broker.Broker.State.{Config, Encoder, Handler, Context}
use one_open_broker.Broker.Channels.{with_pubsub}

-- `str.upper`, `str.lower`, the encoding in UTF-8, what `event_frame` can encode and the version of the
-- package; and for one command
-- the reading of the clock, the ids that `uuid4` makes, and the sizes of the files.
pub record World : Type 0 where
  pub upper : Str → Str
  pub lower : Str → Str
  pub encode : Str → Bytes
  pub encodes : Encoder
  pub version : Str
  pub config : Config
  pub now : ℕ
  pub uuids : ℕ → Str
  pub files : FileSizes

-- A failure to authenticate: the fifth closes the connection.
unfoldable pub count_failure : Context → Context
count_failure ctx = record ctx {
  auth_failures = ctx.auth_failures + 1;
  must_close = if leb 5 (ctx.auth_failures + 1) then true else ctx.must_close;
}

abbrev pub anonymous : Principal
anonymous = record { name = codes "anonymous"; role = codes "admin" }

-- What `cmd_auth` makes of the result of `authenticate`.
unfoldable pub authenticated : Context → AuthResult → Context × Answer
authenticated ctx (accepted p) =
    (record ctx { principal = some p; auth_failures = 0 }, accept (identity p.name p.role))
authenticated ctx denied = (count_failure ctx, refuse unauthorized (codes "invalid credentials"))
authenticated ctx unknown_role = (ctx, raises)

unfoldable pub cmd_auth : World → Context → Meta → Context × Answer
cmd_auth w ctx meta =
    if w.config.auth_enabled
    then authenticated ctx (
        authenticate w.encode meta.token (some (either meta.username meta.user)) meta.password
          w.config.users)
    else (
      record ctx { principal = some anonymous },
      accept (identity anonymous.name anonymous.role),
    )

unfoldable pub cmd_info : World → Answer
cmd_info w = accept (info w.version w.config.host w.config.port)

-- `broker_stats` calls `list_channels`, which makes entries in `_stats`.
unfoldable pub cmd_stats : World → Handler → Handler × Answer
cmd_stats w h =
    let rt = h.runtime in
    let (p, rows) = list_channels rt.pubsub in
    (
      with_pubsub p h,
      accept (
          stats (
            broker_stats w.now rt.engine (length rt.consumers) (length rows)
              rt.pubsub.total_published rt.pubsub.total_fanout w.files rt.metrics)),
    )

unfoldable pub cmd_list_consumers : ℕ → Handler → Handler × Answer
cmd_list_consumers now h = (h, accept (consumer_rows (list_consumer_rows now h.runtime.consumers)))
