-- ===== src/Queue/Run.antt =====
-- All that a run of the queue engine on a concrete input computes through, for tests to open at once.
use one_open_broker.Prelude.{str_eq, str_lt}
use one_open_broker.Prelude.Int.{negate}
use one_open_broker.Dict.{get, put, remove, has, keys, contains, add, discard}
use one_open_broker.Core.Names.{ends_with, is_dlq, dlq_name, origin_queue}
use one_open_broker.Core.Retry.{backoff, retry_delay}
use one_open_broker.Core.Heap.{push}
use one_open_broker.Core.Entries.{ready_before, deadline_before, push_ready, push_deadline}
use one_open_broker.Queue.State.{depth, store, log}
use one_open_broker.Queue.Declare.{
  spec_of, declare_with, declare_plain, declare_queue, remove_all, delete_fuel, delete_queue,
}
use one_open_broker.Queue.Publish.{
  is_full, is_future, make_ready, take_in, enqueue_later, enqueue_now, accept, enqueue,
}
use one_open_broker.Queue.Retry.{bury, dead_letter_to, move_to_dlq, delay_retry, retry_or_dead}
use one_open_broker.Queue.Delivery.{
  next_ready, deliver, reserve, inflight_consumer, trim_acks, remember_ack, settle, ack, give_back,
  nack,
}
use one_open_broker.Queue.Recover.{
  held_by, recover_one, recover_all, recover_queue, recover_from, recover_consumer,
}
use one_open_broker.Queue.Timers.{
  pop_due, release_one, release_all, release_delayed, timeout_one, timeout_from, timeout_inflight,
  tick,
}
use one_open_broker.Queue.DeadLetters.{
  without_id, drop_ready, unbury, rebury, finish_requeue, revived, dlq_requeue,
}

unfoldable pub engine_runs : Unit {0}
unfolding str_eq str_lt negate get put remove has keys contains add discard ends_with is_dlq
    dlq_name origin_queue backoff retry_delay push ready_before deadline_before push_ready
    push_deadline depth store log spec_of declare_with declare_plain declare_queue remove_all
    delete_fuel delete_queue is_full is_future make_ready take_in enqueue_later enqueue_now accept
    enqueue bury dead_letter_to move_to_dlq delay_retry retry_or_dead next_ready deliver reserve
    inflight_consumer trim_acks remember_ack settle ack give_back nack held_by recover_one
    recover_all recover_queue recover_from recover_consumer pop_due release_one release_all
    release_delayed timeout_one timeout_from timeout_inflight tick without_id drop_ready unbury
    rebury finish_requeue revived dlq_requeue
engine_runs = tt
