-- ===== src/Persistence/Lost.antt =====
-- What the replay does with the acknowledgements: a broker that starts from the journal alone has no
-- delivery in flight, and `ack` finds a message only there.
use one_open_broker.Prelude.{
  ℕ, ◌≡◌, refl, ap, Bool, true, false, Option, none, some, List, [], ◌∷◌, Str, arith, length, suc,
  if◌then◌else◌, leb, Bool-cases, Option-cases, inl, inr,
}
use one_open_broker.Dict.{has}
use one_open_broker.Core.Message.{Message}
use one_open_broker.Queue.State.{
  Engine, JournalRecord, log, queue_declare, queue_delete, exchange_declare, exchange_delete,
  bind as record_bind, unbind as record_unbind, message_publish, message_ack, message_nack,
  message_delay, message_requeue, message_dead,
}
use one_open_broker.Queue.Declare.{default_options, delete_queue}
use one_open_broker.Routing.State.{
  Router, Exchange, on_engine, declare_exchange, delete_exchange, bind, unbind, on_queue_declared,
  default_exchange,
}
use one_open_broker.Persistence.Replay.{
  declare_quietly, replay_bind, replay_publish, apply_record, replay, options_of,
}
use one_open_broker.Persistence.Idle.{
  IsIdle, IsIdle-declare_queue, IsIdle-delete_fuel, IsIdle-enqueue, IsIdle-dlq_requeue, ack_idle,
  nack_idle,
}

abbrev pub IsIdleRouter : Router → Type 0
IsIdleRouter r = IsIdle r.engine.queues

IsIdleRouter-if :
    (b : Bool) (x y : Router) → IsIdleRouter x → IsIdleRouter y → IsIdleRouter (if b then x else y)
IsIdleRouter-if true x y i j = i
IsIdleRouter-if false x y i j = j

IsIdleRouter-bind :
    (exchange queue routing_key : Str) (r : Router)
    → IsIdleRouter r
    → IsIdleRouter (bind exchange queue routing_key false r).0
unfolding bind on_engine log
IsIdleRouter-bind exchange queue routing_key r i = elim (Bool-cases (has exchange r.exchanges)) [
  | inr missing ↦ rw (missing, bind) i
  | inl there ↦ elim (Bool-cases (has queue r.engine.queues)) [
    | inr missing ↦ rw (there, bind) (rw missing i)
    | inl known ↦ rw (there, bind) (rw known i)
  ]
]

IsIdleRouter-replay_bind :
    (exchange queue routing_key : Str) (r : Router)
    → IsIdleRouter r
    → IsIdleRouter (replay_bind exchange queue routing_key r)
unfolding replay_bind on_engine declare_quietly
IsIdleRouter-replay_bind exchange queue routing_key r i =
    IsIdleRouter-bind exchange queue routing_key _ (
      IsIdleRouter-if (has queue r.engine.queues) _ _ i
        (IsIdle-declare_queue queue default_options false r.engine i))

IsIdleRouter-unbind :
    (exchange queue routing_key : Str) (r : Router)
    → IsIdleRouter r
    → IsIdleRouter (unbind exchange queue routing_key false r).0
unfolding unbind on_engine log
IsIdleRouter-unbind exchange queue routing_key r i =
    let same : (unbind exchange queue routing_key false r).0.engine ≡ r.engine = ground arith in
    rw (ap (λ (e : Engine). e.queues) same) i

IsIdleRouter-delete :
    (name : Str) (r : Router) → IsIdleRouter r → IsIdleRouter (delete_exchange name false r).0
unfolding delete_exchange on_engine log
IsIdleRouter-delete name r i =
    let same : (delete_exchange name false r).0.engine ≡ r.engine = ground arith in
    rw (ap (λ (e : Engine). e.queues) same) i

IsIdleRouter-declare :
    (name : Str) (type : Str) (durable : Bool) (r r' : Router) (x : Exchange)
    → declare_exchange name type durable false r ≡ some (r', x)
    → IsIdleRouter r
    → IsIdleRouter r'
unfolding declare_exchange on_engine log
IsIdleRouter-declare name type durable r r' x h i =
    let same : r'.engine ≡ r.engine = ground arith in rw (ap (λ (e : Engine). e.queues) same) i

-- A record whose replay answers with a router without deliveries in flight.
IsIdleRouter-some : (x r' : Router) → some x ≡ some r' → IsIdleRouter x → IsIdleRouter r'
IsIdleRouter-some x r' h i =
    let same : r' ≡ x = cc h in rw (ap (λ (r : Router). r.engine.queues) same) i

IsIdleRouter-replay_publish :
    (now : ℕ) (m : Message) (r : Router) → IsIdleRouter r → IsIdleRouter (replay_publish now m r)
unfolding replay_publish on_engine declare_quietly on_queue_declared
IsIdleRouter-replay_publish now m r i =
    let ready = IsIdleRouter-if (has m.queue r.engine.queues) _ _ i (
      IsIdleRouter-bind default_exchange m.queue m.queue _
        (IsIdle-declare_queue m.queue default_options false r.engine i)) in
    IsIdleRouter-if (has m.id _) _ _ ready (IsIdle-enqueue now m false _ ready)

IsIdleRouter-apply_record :
    (now : ℕ) (rec : JournalRecord) (r r' : Router)
    → apply_record now rec r ≡ some r'
    → IsIdleRouter r
    → IsIdleRouter r'
unfolding apply_record on_engine declare_quietly on_queue_declared delete_queue
IsIdleRouter-apply_record now (queue_declare s) r r' h i = IsIdleRouter-some _ _ h (
    IsIdleRouter-bind default_exchange s.name s.name _
      (IsIdle-declare_queue s.name (options_of s) false r.engine i))
IsIdleRouter-apply_record now (queue_delete name) r r' h i =
    IsIdleRouter-some _ _ h
      (IsIdle-delete_fuel (suc (length r.engine.queues)) name false r.engine i)
IsIdleRouter-apply_record now (exchange_declare name type durable) r r' h i =
    elim (Option-cases (declare_exchange name type durable false r)) [
      | inl failed ↦ absurd (ground arith)
      | inr ((x, exchange), done) ↦
          IsIdleRouter-some x r' (ground arith)
            (IsIdleRouter-declare name type durable r x exchange done i)
    ]
IsIdleRouter-apply_record now (exchange_delete name) r r' h i =
    IsIdleRouter-some _ _ h (IsIdleRouter-delete name r i)
IsIdleRouter-apply_record now (record_bind exchange queue routing_key) r r' h i =
    IsIdleRouter-some _ _ h (IsIdleRouter-replay_bind exchange queue routing_key r i)
IsIdleRouter-apply_record now (record_unbind exchange queue routing_key) r r' h i =
    IsIdleRouter-some _ _ h (IsIdleRouter-unbind exchange queue routing_key r i)
IsIdleRouter-apply_record now (message_publish m) r r' h i =
    IsIdleRouter-some _ _ h (IsIdleRouter-replay_publish now m r i)
IsIdleRouter-apply_record now (message_ack id queue) r r' h i =
    IsIdleRouter-some _ _ h (rw (ack_idle id false r.engine i) i)
IsIdleRouter-apply_record now (message_nack id queue requeue) r r' h i =
    IsIdleRouter-some _ _ h (rw (nack_idle now id requeue false r.engine i) i)
IsIdleRouter-apply_record now (message_delay id queue available_at attempts) r r' h i =
    IsIdleRouter-some r _ h i
IsIdleRouter-apply_record now (message_requeue id dlq origin) r r' h i =
    IsIdleRouter-some _ _ h (IsIdle-dlq_requeue now origin id false r.engine i)
IsIdleRouter-apply_record now (message_dead id queue attempts payload) r r' h i =
    IsIdleRouter-some r _ h i

-- Whether a record is of an acknowledgement or of a delivery given back.
abbrev pub settles : JournalRecord → Bool
settles rec = elim rec [
  | message_ack id queue ↦ true
  | message_nack id queue requeue ↦ true
  | _ ↦ false
]

abbrev pub without_settling : List (ℕ × JournalRecord) → List (ℕ × JournalRecord)
without_settling [] = []
without_settling ((seq, rec) ∷ records) =
    let rest = without_settling records in if settles rec then rest else (seq, rec) ∷ rest

abbrev pub router_of : Option (Router × ℕ) → Option Router
router_of none = none
router_of (some (r, last_seq)) = some r

apply_record_settling :
    (now : ℕ) (rec : JournalRecord) (r : Router)
    → settles rec ≡ true
    → IsIdleRouter r
    → apply_record now rec r ≡ some r
unfolding apply_record on_engine
apply_record_settling now (message_ack id queue) r h i =
    ap (λ (e : Engine). some (record r { engine = e })) (ack_idle id false r.engine i)
apply_record_settling now (message_nack id queue requeue) r h i =
    ap (λ (e : Engine). some (record r { engine = e })) (nack_idle now id requeue false r.engine i)
apply_record_settling now (queue_declare s) r h i = cc
apply_record_settling now (queue_delete name) r h i = cc
apply_record_settling now (exchange_declare name type durable) r h i = cc
apply_record_settling now (exchange_delete name) r h i = cc
apply_record_settling now (record_bind exchange queue routing_key) r h i = cc
apply_record_settling now (record_unbind exchange queue routing_key) r h i = cc
apply_record_settling now (message_publish m) r h i = cc
apply_record_settling now (message_delay id queue available_at attempts) r h i = cc
apply_record_settling now (message_requeue id dlq origin) r h i = cc
apply_record_settling now (message_dead id queue attempts payload) r h i = cc

-- A replay that starts with no delivery in flight, as it does from an empty broker, ends with the
-- same router if all records of acknowledgements and of deliveries given back are left out.
pub replay_ignores_settling :
    (now snap_seq last_seq other_seq : ℕ) (records : List (ℕ × JournalRecord)) (r : Router)
    → IsIdle r.engine.queues
    → router_of (replay now snap_seq records r last_seq)
      ≡ router_of (replay now snap_seq (without_settling records) r other_seq)
unfolding replay
replay_ignores_settling now snap_seq last_seq other_seq [] r i = refl
replay_ignores_settling now snap_seq last_seq other_seq ((seq, rec) ∷ records) r i =
    elim (Bool-cases (settles rec)) [
      | inl settling ↦ elim (Bool-cases (leb seq snap_seq)) [
        | inl old ↦
            rw (settling, old, replay)
              (replay_ignores_settling now snap_seq last_seq other_seq records r i)
        | inr new ↦
            rw (settling, new, replay)
              (rw (apply_record_settling now rec r settling i)
                (replay_ignores_settling now snap_seq seq other_seq records r i))
      ]
      | inr kept ↦ elim (Bool-cases (leb seq snap_seq)) [
        | inl old ↦
            rw (kept, old, replay)
              (replay_ignores_settling now snap_seq last_seq other_seq records r i)
        | inr new ↦ elim (Option-cases (apply_record now rec r)) [
          | inl failed ↦ rw (kept, new, replay) (rw failed refl)
          | inr (r', done) ↦
              rw (kept, new, replay)
                (rw done (
                  replay_ignores_settling now snap_seq seq seq records r'
                    (IsIdleRouter-apply_record now rec r r' done i)))
        ]
      ]
    ]
