-- ===== src/Consumers/Examples.antt =====
-- Runs of the consumer registry at concrete inputs.
use one_open_broker.Prelude.{◌≡◌, ◌≢◌, refl, true, false, none, some, [], ◌∷◌, Str, codes, length}
use one_open_broker.Dict.{get, contains}
use one_open_broker.Core.Message.{Message}
use one_open_broker.Core.Qos.{can_deliver, on_deliver}
use one_open_broker.Queue.Run.{engine_runs}
use one_open_broker.Queue.Examples.{
  settings, jobs, published, first_message, queue_in, Reach-published,
}
use one_open_broker.Queue.Consistent.{IsConsistent}
use one_open_broker.Queue.Steps.{Reach-IsConsistent}
use one_open_broker.Consumers.State.{
  Consumer, Manager, register, register_queues, enlist, touch, cancel, cancel_all, delist, leave,
  disconnect_connection,
}
use one_open_broker.Consumers.Delivery.{
  nth, advance, eligible, hand_to, try_rounds, try_reserve, drain_queue,
}
use one_open_broker.Consumers.Window.{Handed, try_reserve-Handed}
use one_open_broker.Consumers.Consistent.{register-IsConsistent}
use one_open_broker.Consumers.Rotation.{Turned}
use one_open_broker.Consumers.Turn.{try_reserve_finds}
use one_open_broker.Consumers.Departure.{Reached, begins, registers, disconnect_leaves_none}
use one_open_broker.Consumers.Drain.{drain_queue_ends}

abbrev worker : Str
worker = codes "c1"

abbrev pub one_worker : Manager
one_worker =
    (register 11 worker (codes "conn") (jobs ∷ []) 1 []
      (record { engine = published; consumers = []; by_connection = [] })).0

abbrev served : Manager
served = (try_reserve 12 jobs one_worker).0

abbrev busy_worker : Consumer
busy_worker = record {
  consumer_id = worker;
  connection_id = codes "conn";
  queues = jobs ∷ [];
  qos = record { prefetch_count = 1; unacked_count = 1 };
  connected_at = 11;
  last_activity = 12;
  tag = [];
  cancelled = false;
}

has_jobs : get jobs one_worker.engine.queues ≡ some (queue_in jobs one_worker.engine)
unfolding register register_queues enlist engine_runs
has_jobs = refl

serves : try_reserve 12 jobs one_worker ≡ (served, some (busy_worker, first_message))
unfolding register register_queues enlist touch nth advance eligible hand_to try_rounds try_reserve
    can_deliver on_deliver engine_runs
serves = refl

try_reserve_example :
    Handed 12 jobs (queue_in jobs one_worker.engine).consumer_ids one_worker served busy_worker
try_reserve_example =
    try_reserve-Handed 12 jobs (queue_in jobs one_worker.engine) one_worker served busy_worker
      first_message has_jobs serves

drain_queue_example : (drain_queue 12 jobs one_worker).1 ≢ none
drain_queue_example = drain_queue_ends 12 jobs one_worker

abbrev idle_worker : Consumer
idle_worker = record busy_worker {
  qos = record { prefetch_count = 1; unacked_count = 0 };
  last_activity = 11;
}

knows_worker : get worker one_worker.consumers ≡ some idle_worker
unfolding register register_queues enlist engine_runs
knows_worker = refl

lists_worker : contains worker (queue_in jobs one_worker.engine).consumer_ids ≡ true
unfolding register register_queues enlist engine_runs
lists_worker = refl

has_room : eligible idle_worker ≡ true
unfolding eligible can_deliver
has_room = refl

waits : (queue_in jobs one_worker.engine).ready ≢ []
unfolding register register_queues enlist engine_runs
waits = λ e. cc

one_worker-IsConsistent : IsConsistent one_worker.engine
one_worker-IsConsistent =
    register-IsConsistent 11 worker (codes "conn") (jobs ∷ []) 1 []
      (record { engine = published; consumers = []; by_connection = [] })
      (Reach-IsConsistent settings published Reach-published)

try_reserve_finds_example :
    (d : Consumer × Message) × ((try_reserve 12 jobs one_worker).1 ≡ some d)
    × Turned jobs
        (queue_in jobs one_worker.engine).consumer_ids
        (queue_in jobs one_worker.engine).rr_index
        (length (queue_in jobs one_worker.engine).consumer_ids)
        (try_reserve 12 jobs one_worker).0
        d.0
try_reserve_finds_example =
    try_reserve_finds 12 jobs worker one_worker (queue_in jobs one_worker.engine) idle_worker
      one_worker-IsConsistent has_jobs waits lists_worker knows_worker has_room

abbrev pub two_workers : Manager
two_workers = (register 12 (codes "c2") (codes "other") (jobs ∷ []) 1 [] one_worker).0

pub two_workers-IsConsistent : IsConsistent two_workers.engine
two_workers-IsConsistent =
    register-IsConsistent 12 (codes "c2") (codes "other") (jobs ∷ []) 1 [] one_worker
      one_worker-IsConsistent

pub Reached-two_workers : Reached two_workers
Reached-two_workers =
    registers 12 (codes "c2") (codes "other") (jobs ∷ []) 1 []
      (registers 11 worker (codes "conn") (jobs ∷ []) 1 [] (begins published))

abbrev other_worker : Consumer
other_worker = record idle_worker {
  consumer_id = codes "c2";
  connection_id = codes "other";
  connected_at = 12;
  last_activity = 12;
}

pub disconnects_one : (disconnect_connection 13 (codes "conn") two_workers).1 ≡ some 1
unfolding disconnect_connection cancel_all cancel delist leave register register_queues enlist
    engine_runs
disconnects_one = refl

keeps_other :
    get (codes "c2") (disconnect_connection 13 (codes "conn") two_workers).0.consumers
    ≡ some other_worker
unfolding disconnect_connection cancel_all cancel delist leave register register_queues enlist
    engine_runs
keeps_other = refl

disconnect_leaves_none_example : codes "other" ≢ codes "conn"
disconnect_leaves_none_example =
    disconnect_leaves_none two_workers 13 1 (codes "conn") (codes "c2") other_worker
      Reached-two_workers disconnects_one keeps_other
