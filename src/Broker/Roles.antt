-- ===== src/Broker/Roles.antt =====
-- What a client can do to the broker in the role of a monitor.
use one_open_broker.Prelude.{
  ◌≡◌, refl, Bool, true, false, Option, none, some, List, [], ◌∷◌, Str, codes, str_eq, str_eq_iff,
  arith, Option-cases, List-cases, inl, inr, ap, ◌∙◌, sym,
}
use one_open_broker.Core.Message.{Bytes}
use one_open_broker.Dict.{Dict, get, put, get-put}
use one_open_broker.Pubsub.State.{ChannelStats, stats_of, touch_stats, list_channels}
use one_open_broker.Security.Auth.{Principal, member}
use one_open_broker.Security.Acl.{
  allowed, authorize, role_commands, monitor_commands, Verdict-cases,
}
use one_open_broker.Security.Laws.{authorize_iff, may}
use one_open_broker.Broker.Replies.{Meta, Answer, returns, raises, or_blank}
use one_open_broker.Broker.State.{Handler, Context}
use one_open_broker.Broker.Queues.{cmd_list_queues}
use one_open_broker.Broker.Channels.{with_pubsub, cmd_list_channels}
use one_open_broker.Broker.Access.{World, cmd_stats, cmd_list_consumers}
use one_open_broker.Broker.Handle.{
  Command, ping, auth, info, stats, queue_info, list_queues, list_consumers,
  list_channels as channel_list, dlq_info, methods, method_of, run_method, answered, dispatch,
  handle,
}
use one_open_broker.Broker.Consistent.Queues.{cmd_queue_info_same, cmd_dlq_info_same}
use one_open_broker.Broker.Names.{
  IsCasing, all_ascii, is_ascii, ascii_upper, covers, method_of-passes,
}

-- The methods behind the commands of a monitor.
abbrev is_reading : Command → Bool
is_reading ping = true
is_reading auth = true
is_reading info = true
is_reading stats = true
is_reading queue_info = true
is_reading list_queues = true
is_reading list_consumers = true
is_reading channel_list = true
is_reading dlq_info = true
is_reading _ = false

-- The handler is the same but for new entries among the statistics of channels.
abbrev pub OnlyRead : Handler → Handler → Type 0
OnlyRead h h' =
    (h' ≡ with_pubsub h'.runtime.pubsub h)
    × (h'.runtime.pubsub.subs ≡ h.runtime.pubsub.subs)
    × (h'.runtime.pubsub.by_connection ≡ h.runtime.pubsub.by_connection)
    × (h'.runtime.pubsub.total_published ≡ h.runtime.pubsub.total_published)
    × (h'.runtime.pubsub.total_fanout ≡ h.runtime.pubsub.total_fanout)
    × ((channel : Str)
        → stats_of (get channel h'.runtime.pubsub.stats)
          ≡ stats_of (get channel h.runtime.pubsub.stats))

stats_of-touch_stats :
    (channel : Str) (names : List Str) (d : Dict ChannelStats)
    → stats_of (get channel (touch_stats names d)) ≡ stats_of (get channel d)
unfolding touch_stats
stats_of-touch_stats channel [] d = refl
stats_of-touch_stats channel (name ∷ names) d = ground (
  arith,
  stats_of-touch_stats channel names (put name (stats_of (get name d)) d),
  get-put name channel (stats_of (get name d)) d,
  str_eq_iff name channel,
)

OnlyRead-refl : (h : Handler) → OnlyRead h h
OnlyRead-refl h = (refl, refl, refl, refl, refl, λ channel. refl)

run_method-OnlyRead :
    (w : World) (c : Command) (ctx : Context) (meta : Meta) (payload : Bytes) (h : Handler)
    → is_reading c ≡ true
    → OnlyRead h (run_method w c ctx meta payload h).1
unfolding run_method cmd_stats cmd_list_channels cmd_list_consumers cmd_list_queues list_channels
run_method-OnlyRead w ping ctx meta payload h r = OnlyRead-refl h
run_method-OnlyRead w auth ctx meta payload h r = OnlyRead-refl h
run_method-OnlyRead w info ctx meta payload h r = OnlyRead-refl h
run_method-OnlyRead w stats ctx meta payload h r =
    (refl, refl, refl, refl, refl, λ channel. stats_of-touch_stats channel _ h.runtime.pubsub.stats)
run_method-OnlyRead w queue_info ctx meta payload h r =
    rw (cmd_queue_info_same meta h) (OnlyRead-refl h)
run_method-OnlyRead w list_queues ctx meta payload h r = OnlyRead-refl h
run_method-OnlyRead w list_consumers ctx meta payload h r = OnlyRead-refl h
run_method-OnlyRead w channel_list ctx meta payload h r =
    (refl, refl, refl, refl, refl, λ channel. stats_of-touch_stats channel _ h.runtime.pubsub.stats)
run_method-OnlyRead w dlq_info ctx meta payload h r =
    rw (cmd_dlq_info_same meta h) (OnlyRead-refl h)
run_method-OnlyRead w _ ctx meta payload h r = cc

answered-OnlyRead :
    (h : Handler) (x : Context × Handler × Answer) → OnlyRead h x.1 → OnlyRead h (answered x).1
answered-OnlyRead h (ctx, h', returns reply) k = k
answered-OnlyRead h (ctx, h', raises) k = k

-- What `handle` does to the handler, for a client whose commands are in a table of commands for
-- reading.
handle_in_table :
    (table : List Str) (w : World) (ctx : Context) (meta : Meta) (payload : Bytes) (h : Handler)
    → IsCasing w.upper w.lower
    → all_ascii table ≡ true
    → covers table is_reading methods ≡ true
    → ((cmd : Str)
        → authorize w.upper ctx.principal cmd w.config.auth_enabled ≡ allowed
        → member (w.upper cmd) table ≡ true)
    → OnlyRead h (handle w ctx meta payload h).1
unfolding handle dispatch
handle_in_table table w ctx meta payload h cased ascii reading may =
    elim (List-cases (or_blank meta.cmd)) [
      | inl blank ↦ rw (blank, handle) (OnlyRead-refl h)
      | inr (x, s, name) ↦
          elim (Verdict-cases (authorize w.upper ctx.principal (x ∷ s) w.config.auth_enabled)) [
            | inr (inl refused) ↦ rw (name, handle) (rw refused (OnlyRead-refl h))
            | inr (inr (role, cmd, refused)) ↦ rw (name, handle) (rw refused (OnlyRead-refl h))
            | inl let_in ↦ elim (Option-cases (method_of (w.lower (x ∷ s)))) [
              | inl unknown ↦
                  rw (name, handle) (rw let_in (rw (unknown, dispatch) (OnlyRead-refl h)))
              | inr (c, known) ↦
                  let reads =
                    method_of-passes w.upper w.lower table is_reading (x ∷ s) c cased ascii reading
                      (may (x ∷ s) let_in) known in
                  rw (name, handle)
                    (rw let_in (
                      rw (known, dispatch)
                        (answered-OnlyRead h _ (run_method-OnlyRead w c ctx meta payload h reads))))
            ]
          ]
    ]

abbrev monitor : Str
monitor = codes "monitor"

monitor_table :
    (upper : Str → Str) (p : Principal) (cmd : Str) (auth_required : Bool)
    → p.role ≡ monitor
    → authorize upper (some p) cmd auth_required ≡ allowed
    → member (upper cmd) monitor_commands ≡ true
monitor_table upper p cmd auth_required r a =
    let table : role_commands p.role ≡ some monitor_commands =
      ap role_commands r ∙ (unfold role_commands str_eq in refl) in
    ap
      (λ (t : Option (List Str)). elim t [
        | none ↦ true
        | some commands ↦ member (upper cmd) commands
      ])
      (sym table)
    ∙ (authorize_iff upper (some p) cmd auth_required).0 a

-- No command of a client in the role of a monitor changes the broker, whether it is allowed or
-- refused: the queues, exchanges, bindings, consumers, buffers and counters are the same afterwards,
-- and so are the subscriptions, the totals and the statistics of each channel. Only a channel without
-- statistics may have got an entry for them, with zeros. Where both cases of a text are ASCII,
-- `str.upper` gives the upper case of what `str.lower` gives.
pub monitor_reads_only :
    (w : World) (ctx : Context) (p : Principal) (meta : Meta) (payload : Bytes) (h : Handler)
    → IsCasing w.upper w.lower
    → ctx.principal ≡ some p
    → p.role ≡ codes "monitor"
    → OnlyRead h (handle w ctx meta payload h).1
monitor_reads_only w ctx p meta payload h cased is_p role =
    handle_in_table monitor_commands w ctx meta payload h cased (unfold all_ascii is_ascii in refl)
      (unfold covers member str_eq ascii_upper is_ascii in refl)
      (λ cmd may.
        monitor_table w.upper p cmd w.config.auth_enabled role
          (ap (λ q. authorize w.upper q cmd w.config.auth_enabled) (sym is_p) ∙ may))
