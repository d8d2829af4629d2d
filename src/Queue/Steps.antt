-- ===== src/Queue/Steps.antt =====
-- The engine's operations as one step relation, and what holds in every state that they reach.
use one_open_broker.Prelude.{ℕ, ◌≡◌, refl, Bool, false, Option, none, some, Str}
use one_open_broker.Dict.{get, has, contains}
use one_open_broker.Core.Message.{Message}
use one_open_broker.Core.Names.{dlq_name, origin_queue}
use one_open_broker.Queue.State.{DurableQueue, Engine, Settings, new_engine}
use one_open_broker.Queue.Declare.{QueueOptions, declare_queue, delete_queue}
use one_open_broker.Queue.Publish.{enqueue}
use one_open_broker.Queue.Delivery.{reserve, ack, nack}
use one_open_broker.Queue.Recover.{recover_consumer}
use one_open_broker.Queue.Timers.{tick}
use one_open_broker.Queue.DeadLetters.{dlq_requeue}
use one_open_broker.Queue.Consistent.{IsConsistent}
use one_open_broker.Queue.Consistent.Declare.{declare_queue-IsConsistent}
use one_open_broker.Queue.Consistent.Delete.{delete_queue-IsConsistent}
use one_open_broker.Queue.Consistent.Publish.{enqueue-IsConsistent}
use one_open_broker.Queue.Consistent.Reserve.{reserve-IsConsistent}
use one_open_broker.Queue.Consistent.Settle.{ack-IsConsistent, nack-IsConsistent}
use one_open_broker.Queue.Consistent.Recover.{recover_consumer-IsConsistent}
use one_open_broker.Queue.Consistent.Timers.{tick-IsConsistent}
use one_open_broker.Queue.Consistent.DeadLetters.{dlq_requeue-IsConsistent}

-- A published message has an id of its own, as `uuid4` gives it, and a dead letter is requeued
-- while no consumer of the dead-letter queue holds it; all else is as it may come.
pub data Step (e : Engine) : Engine → Type 0 where
  declares :
      (name : Str) (o : QueueOptions) (persist : Bool) → Step e (declare_queue name o persist e).0
  deletes : (name : Str) (persist : Bool) → Step e (delete_queue name persist e).0
  enqueues :
      (now : ℕ) (m : Message) (persist : Bool)
      → get m.id e.by_id ≡ none
      → Step e (enqueue now m persist e).0
  reserves : (now : ℕ) (name consumer_id : Str) → Step e (reserve now name consumer_id e).0
  acks : (id : Str) (persist : Bool) → Step e (ack id persist e).0
  nacks : (now : ℕ) (id : Str) (requeue persist : Bool) → Step e (nack now id requeue persist e).0
  recovers :
      (now : ℕ) (consumer_id : Str) (persist : Bool)
      → Step e (recover_consumer now consumer_id persist e).0
  ticks : (clock : ℕ) (now : Option ℕ) → Step e (tick clock now e).0
  requeues :
      (now : ℕ) (name id : Str) (persist : Bool)
      → ((q : DurableQueue)
          → get (dlq_name (origin_queue name)) e.queues ≡ some q
          → (has id q.inflight ≡ false) × (contains id q.delayed_ids ≡ false))
      → Step e (dlq_requeue now name id persist e).0

pub data Reach (s : Engine) : Engine → Type 0 where
  here : Reach s s
  next : {t u : Engine} → Reach s t → Step t u → Reach s u

Step-IsConsistent : {e u : Engine} → Step e u → IsConsistent e → IsConsistent u
Step-IsConsistent (declares name o persist) c = declare_queue-IsConsistent name o persist _ c
Step-IsConsistent (deletes name persist) c = delete_queue-IsConsistent name persist _ c
Step-IsConsistent (enqueues now m persist fresh) c = enqueue-IsConsistent now m persist _ c fresh
Step-IsConsistent (reserves now name consumer_id) c = reserve-IsConsistent now name consumer_id _ c
Step-IsConsistent (acks id persist) c = ack-IsConsistent id persist _ c
Step-IsConsistent (nacks now id requeue persist) c = nack-IsConsistent now id requeue persist _ c
Step-IsConsistent (recovers now consumer_id persist) c =
    recover_consumer-IsConsistent now consumer_id persist _ c
Step-IsConsistent (ticks clock now) c = tick-IsConsistent clock now _ c
Step-IsConsistent (requeues now name id persist idle) c =
    dlq_requeue-IsConsistent now name id persist _ c idle

pub new_engine-IsConsistent : (s : Settings) → IsConsistent (new_engine s)
unfolding get
new_engine-IsConsistent s = record { tracked = λ n q h. cc; owned = λ n id. refl }

-- In every state that the operations reach from a new engine, a message is stored by the one queue
-- that `_by_id` names and by no other, and stands in exactly one of that queue's ready heap,
-- deliveries in flight and delayed ids, which hold nothing else. Messages are published under ids
-- that are not stored, and dead letters requeued while they are neither in flight nor delayed.
pub Reach-IsConsistent : (s : Settings) (e : Engine) → Reach (new_engine s) e → IsConsistent e
Reach-IsConsistent s e here = new_engine-IsConsistent s
Reach-IsConsistent s e (next r st) = Step-IsConsistent st (Reach-IsConsistent s _ r)
