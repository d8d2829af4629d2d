-- ===== src/Persistence/Replay.antt =====
-- `apply_record` and `recover_into`, on the journal's records as they were appended.
use one_open_broker.Prelude.{ℕ, false, Option, none, some, List, [], ◌∷◌, Str, if◌then◌else◌, leb}
use one_open_broker.Dict.{has}
use one_open_broker.Core.Message.{Message}
use one_open_broker.Queue.State.{
  QueueSpec, Engine, JournalRecord, queue_declare, queue_delete, exchange_declare, exchange_delete,
  bind as record_bind, unbind as record_unbind, message_publish, message_ack, message_nack,
  message_delay, message_requeue, message_dead,
}
use one_open_broker.Queue.Declare.{QueueOptions, default_options, declare_queue, delete_queue}
use one_open_broker.Queue.Publish.{enqueue}
use one_open_broker.Queue.Delivery.{ack, nack}
use one_open_broker.Queue.Timers.{tick}
use one_open_broker.Queue.DeadLetters.{dlq_requeue}
use one_open_broker.Queue.Snapshot.{EngineSnapshot, restore_state}
use one_open_broker.Routing.State.{
  Router, on_engine, declare_exchange, delete_exchange, bind, unbind, on_queue_declared,
}
use one_open_broker.Routing.Snapshot.{RouterSnapshot, load}

-- The arguments of `declare_queue` that a record keeps.
abbrev pub options_of : QueueSpec → QueueOptions
options_of s = record {
  durable = s.durable;
  max_length = s.max_length;
  visibility_timeout = some s.visibility_timeout;
  max_attempts = some s.max_attempts;
  dead_letter = s.dead_letter;
}

unfoldable pub declare_quietly : Str → QueueOptions → Engine → Engine
declare_quietly name o e = (declare_queue name o false e).0

unfoldable pub replay_bind : Str → Str → Str → Router → Router
replay_bind exchange queue routing_key r =
    let ready =
      if has queue r.engine.queues
      then r
      else on_engine (declare_quietly queue default_options) r in
    (bind exchange queue routing_key false ready).0

-- A message whose id is stored already is not published again.
unfoldable pub replay_publish : ℕ → Message → Router → Router
replay_publish now m r =
    let ready =
      if has m.queue r.engine.queues
      then r
      else on_queue_declared m.queue false
          (on_engine (declare_quietly m.queue default_options) r) in
    if has m.id ready.engine.by_id then ready else on_engine (λ e. (enqueue now m false e).0) ready

-- `none` is the `ValueError` of an exchange of an unknown type. Both records that the journal names
-- MESSAGE_REQUEUE are told apart as in the source: the one of a delayed retry is passed over.
unfoldable pub apply_record : ℕ → JournalRecord → Router → Option Router
apply_record now (queue_declare s) r =
    some (on_queue_declared s.name false (on_engine (declare_quietly s.name (options_of s)) r))
apply_record now (queue_delete name) r = some (on_engine (λ e. (delete_queue name false e).0) r)
apply_record now (exchange_declare name type durable) r =
    elim (declare_exchange name type durable false r) [
      | none ↦ none
      | some (r', exchange) ↦ some r'
    ]
apply_record now (exchange_delete name) r = some (delete_exchange name false r).0
apply_record now (record_bind exchange queue routing_key) r =
    some (replay_bind exchange queue routing_key r)
apply_record now (record_unbind exchange queue routing_key) r =
    some (unbind exchange queue routing_key false r).0
apply_record now (message_publish m) r = some (replay_publish now m r)
apply_record now (message_ack id queue) r = some (on_engine (λ e. (ack id false e).0) r)
apply_record now (message_nack id queue requeue) r =
    some (on_engine (λ e. (nack now id requeue false e).0) r)
apply_record now (message_delay id queue available_at attempts) r = some r
apply_record now (message_requeue id dlq origin) r =
    some (on_engine (λ e. (dlq_requeue now origin id false e).0) r)
apply_record now (message_dead id queue attempts payload) r = some r

-- The loop over the numbered records. Returns the router and `last_seq`.
unfoldable pub replay : ℕ → ℕ → List (ℕ × JournalRecord) → Router → ℕ → Option (Router × ℕ)
replay now snap_seq [] r last_seq = some (r, last_seq)
replay now snap_seq ((seq, rec) ∷ records) r last_seq =
    let skipped = replay now snap_seq records r last_seq in
    if leb seq snap_seq then skipped else elim (apply_record now rec r) [
      | none ↦ none
      | some r' ↦ replay now snap_seq records r' seq
    ]

-- `BrokerRuntime.restore_snapshot`
unfoldable pub restore_snapshot : ℕ → EngineSnapshot → RouterSnapshot → Router → Option Router
restore_snapshot now es rs r = load rs (on_engine (restore_state now es) r)

-- From `read_snapshot` on; the truncation of the file is left out.
unfoldable pub recover_into :
    ℕ
    → Option (ℕ × EngineSnapshot × RouterSnapshot)
    → List (ℕ × JournalRecord)
    → Router
    → Option (Router × ℕ)
recover_into now loaded records r =
    let replayed : Option (Router × ℕ) = elim loaded [
      | none ↦ replay now 0 records r 0
      | some (snap_seq, es, rs) ↦ elim (restore_snapshot now es rs r) [
        | none ↦ none
        | some restored ↦ replay now snap_seq records restored snap_seq
      ]
    ] in
    elim replayed [
      | none ↦ none
      | some (r', last_seq) ↦ some (on_engine (λ e. (tick now none e).0) r', last_seq)
    ]
