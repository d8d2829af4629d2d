-- ===== src/Queue/Examples.antt =====
-- Runs of the queue engine at concrete inputs.
use one_open_broker.Prelude.{
  ◌<◌, ◌≤◌, ◌≡◌, ◌≢◌, ◌↔◌, refl, true, false, none, some, [], ◌∷◌, Str, codes, length, is_some,
  arith, bit,
}
use one_open_broker.Prelude.Int.{pos}
use one_open_broker.Dict.{get, contains}
use one_open_broker.Core.Names.{is_dlq}
use one_open_broker.Core.Message.{Message, InflightRecord}
use one_open_broker.Core.Results.{AckResult, NackResult, EnqueueResult}
use one_open_broker.Core.Retry.{exponential}
use one_open_broker.Queue.State.{Settings, Engine, DurableQueue, new_queue, new_engine, depth}
use one_open_broker.Queue.Declare.{default_options, declare_queue}
use one_open_broker.Queue.Publish.{enqueue}
use one_open_broker.Queue.Delivery.{reserve, ack, nack, inflight_consumer}
use one_open_broker.Queue.Run.{engine_runs}
use one_open_broker.Queue.Consistent.{IsConsistent, stores, owns, places}
use one_open_broker.Queue.Steps.{
  Reach, here, next, declares, enqueues, reserves, nacks, Reach-IsConsistent,
}
use one_open_broker.Queue.Ack.{ack_ok_iff, ack_refused, ack_settles, ack_twice}
use one_open_broker.Queue.Bounds.{depth_in, enqueue_within_limit}
use one_open_broker.Queue.Destination.{place_after_nack, nack_destination, dlq_nack_loses}

abbrev pub settings : Settings
settings = record {
  visibility_timeout = 300;
  max_attempts = 3;
  max_length = some 2;
  retry_backoff = exponential;
  retry_base_delay = 1;
  recent_ack_limit = 100;
}

abbrev pub jobs : Str
jobs = codes "jobs"

abbrev pub first_id : Str
first_id = codes "m1"

abbrev pub first_message : Message
first_message = record {
  id = first_id;
  queue = jobs;
  payload = 7 ∷ [];
  created_at = 10;
  attempts = 0;
  max_attempts = 3;
  priority = pos 0;
  headers = none;
  available_at = none;
  exchange = [];
  routing_key = jobs;
}

-- The queue, the delivery and the message under a key, where there is one.
abbrev pub queue_in : Str → Engine → DurableQueue
queue_in name e = elim (get name e.queues) [
  | some q ↦ q
  | none ↦ new_queue (record {
    name = name;
    durable = true;
    max_length = none;
    visibility_timeout = 0;
    max_attempts = 0;
    dead_letter = true;
  })
]

abbrev pub declared : Engine
declared = (declare_queue jobs default_options true (new_engine settings)).0

abbrev pub published : Engine
published = (enqueue 10 first_message true declared).0

abbrev delivered : Engine
delivered = (reserve 11 jobs (codes "c1") published).0

unknown_yet : get first_id declared.by_id ≡ none
unfolding engine_runs
unknown_yet = refl

pub Reach-published : Reach (new_engine settings) published
Reach-published =
    next (next here (declares jobs default_options true))
      (enqueues 10 first_message true unknown_yet)

Reach-delivered : Reach (new_engine settings) delivered
Reach-delivered = next Reach-published (reserves 11 jobs (codes "c1"))

Reach-IsConsistent_example : IsConsistent delivered
Reach-IsConsistent_example = Reach-IsConsistent settings delivered Reach-delivered

abbrev held : InflightRecord
held = record {
  message_id = first_id;
  queue = jobs;
  consumer_id = codes "c1";
  delivery_time = 11;
  visibility_deadline = 311;
}

-- The delivery that the examples settle.
delivered_name : get first_id delivered.by_id ≡ some jobs
unfolding engine_runs
delivered_name = refl

delivered_queue : get jobs delivered.queues ≡ some (queue_in jobs delivered)
unfolding engine_runs
delivered_queue = refl

delivered_held : get first_id (queue_in jobs delivered).inflight ≡ some held
unfolding engine_runs
delivered_held = refl

delivered_message : get first_id (queue_in jobs delivered).messages ≡ some first_message
unfolding engine_runs
delivered_message = refl

ack_first : (ack first_id true delivered).1 ≡ AckResult.ok
unfolding engine_runs
ack_first = refl

ack_ok_iff_example : ((ack first_id true delivered).1 ≡ AckResult.ok) ↔ (
    (contains first_id delivered.recent_acks ≡ false)
    × (is_some (inflight_consumer first_id delivered) ≡ true))
ack_ok_iff_example = ack_ok_iff first_id true delivered

unknown_ack : (ack (codes "m9") true delivered).1 ≢ AckResult.ok
unfolding engine_runs
unknown_ack h = cc h

ack_refused_example : (ack (codes "m9") true delivered).0 ≡ delivered
ack_refused_example = ack_refused (codes "m9") true delivered unknown_ack

ack_settles_example :
    ((name : Str) → stores name first_id (ack first_id true delivered).0.queues ≡ false)
    × ((j : Str)
        → j ≢ first_id
        → get j (ack first_id true delivered).0.by_id ≡ get j delivered.by_id)
    × (length (ack first_id true delivered).0.recent_acks ≤ delivered.settings.recent_ack_limit)
ack_settles_example = ack_settles first_id true delivered Reach-IsConsistent_example ack_first

ack_twice_example :
    ack first_id true (ack first_id true delivered).0
    ≡ ((ack first_id true delivered).0, AckResult.already_acked)
ack_twice_example = ack_twice first_id true delivered (unfold engine_runs in omega arith) ack_first

declared_queue : get jobs declared.queues ≡ some (queue_in jobs declared)
unfolding engine_runs
declared_queue = refl

declared_limit : (queue_in jobs declared).spec.max_length ≡ some 2
unfolding engine_runs
declared_limit = refl

enqueue_within_limit_example :
    (((enqueue 10 first_message true declared).1 ≡ EnqueueResult.ok)
      ↔ (depth (queue_in jobs declared) < 2))
    × ((enqueue 10 first_message true declared).1 ≡ EnqueueResult.ok
        → depth_in (get jobs (enqueue 10 first_message true declared).0.queues) ≤ 2)
enqueue_within_limit_example =
    enqueue_within_limit 10 2 first_message true (queue_in jobs declared) declared declared_queue
      declared_limit

nack_destination_example :
    ((nack 20 first_id true true delivered).1 ≡ NackResult.ok)
    × (get first_id (nack 20 first_id true true delivered).0.by_id
        ≡ place_after_nack jobs true (queue_in jobs delivered) first_message)
    × ((n : Str)
        → stores n first_id (nack 20 first_id true true delivered).0.queues
          ≡ owns n (place_after_nack jobs true (queue_in jobs delivered) first_message))
    × ((n : Str) (x : DurableQueue)
        → get n (nack 20 first_id true true delivered).0.queues ≡ some x
        → places x first_id
          ≡ bit (owns n (place_after_nack jobs true (queue_in jobs delivered) first_message)))
nack_destination_example =
    nack_destination 20 first_id jobs true true (queue_in jobs delivered) held first_message
      delivered Reach-IsConsistent_example delivered_name delivered_queue delivered_held
      delivered_message

-- A message with one attempt fails, goes to the dead-letter queue and is delivered from there.
abbrev second_id : Str
second_id = codes "m2"

abbrev morgue : Str
morgue = codes "jobs.DLQ"

abbrev one_attempt : Message
one_attempt = record first_message { id = second_id; max_attempts = 1 }

abbrev exhausted : Engine
exhausted =
    (nack 20 second_id true true
      (reserve 11 jobs (codes "c1") (enqueue 10 one_attempt true declared).0).0).0

abbrev from_dlq : Engine
from_dlq = (reserve 30 morgue (codes "c2") exhausted).0

second_unknown : get second_id declared.by_id ≡ none
unfolding engine_runs
second_unknown = refl

Reach-from_dlq : Reach (new_engine settings) from_dlq
Reach-from_dlq =
    next
      (next
        (next
          (next (next here (declares jobs default_options true))
            (enqueues 10 one_attempt true second_unknown))
          (reserves 11 jobs (codes "c1")))
        (nacks 20 second_id true true))
      (reserves 30 morgue (codes "c2"))

abbrev dead_held : InflightRecord
dead_held = record {
  message_id = second_id;
  queue = morgue;
  consumer_id = codes "c2";
  delivery_time = 30;
  visibility_deadline = 330;
}

abbrev dead_message : Message
dead_message = record one_attempt { queue = morgue; attempts = 1 }

from_dlq_name : get second_id from_dlq.by_id ≡ some morgue
unfolding engine_runs
from_dlq_name = refl

from_dlq_queue : get morgue from_dlq.queues ≡ some (queue_in morgue from_dlq)
unfolding engine_runs
from_dlq_queue = refl

from_dlq_held : get second_id (queue_in morgue from_dlq).inflight ≡ some dead_held
unfolding engine_runs
from_dlq_held = refl

from_dlq_message : get second_id (queue_in morgue from_dlq).messages ≡ some dead_message
unfolding engine_runs
from_dlq_message = refl

morgue_dlq : is_dlq morgue ≡ true
unfolding engine_runs
morgue_dlq = refl

dlq_nack_loses_example :
    ((nack 40 second_id true true from_dlq).1 ≡ NackResult.ok)
    × ((n : Str) → stores n second_id (nack 40 second_id true true from_dlq).0.queues ≡ false)
dlq_nack_loses_example =
    dlq_nack_loses 40 second_id morgue true (queue_in morgue from_dlq) dead_held dead_message
      from_dlq (Reach-IsConsistent settings from_dlq Reach-from_dlq) from_dlq_name from_dlq_queue
      from_dlq_held from_dlq_message morgue_dlq (omega arith)
