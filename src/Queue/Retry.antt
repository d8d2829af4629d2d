-- ===== src/Queue/Retry.antt =====
-- `_retry_or_dead` and `_move_to_dlq`. The queue object is passed with the name under which it is
-- stored, and has had the delivery taken out of `inflight`.
use one_open_broker.Prelude.{
  ℕ, ◌+◌, Bool, false, none, some, [], ◌∷◌, ◌++◌, Str, if◌then◌else◌, leb,
}
use one_open_broker.Dict.{put, remove, add}
use one_open_broker.Core.Names.{dlq_name}
use one_open_broker.Core.Message.{Message}
use one_open_broker.Core.Retry.{retry_delay}
use one_open_broker.Core.Entries.{Deadline, push_deadline}
use one_open_broker.Queue.State.{DurableQueue, Engine, store, log, message_delay, message_dead}
use one_open_broker.Queue.Declare.{declare_queue, default_options}
use one_open_broker.Queue.Publish.{make_ready, take_in}

-- The part of `_move_to_dlq` before `dead_letter` is tested: the message leaves its queue.
unfoldable pub bury : Str → DurableQueue → Message → Bool → Engine → Engine
bury name q m persist e =
    let queue = record q {
      messages = remove m.id q.messages;
      stats = record q.stats { dead = q.stats.dead + 1 };
    } in
    log persist (message_dead m.id q.spec.name m.attempts m.payload)
      (record (store name queue e) { by_id = remove m.id e.by_id })

-- The rest of it: the message goes into the dead-letter queue, which is declared if need be.
unfoldable pub dead_letter_to : Str → Message → Engine → Engine
dead_letter_to dest_name m e =
    let (e', dest) =
      declare_queue dest_name (record default_options { dead_letter = false }) false e in
    let moved = record m { queue = dest_name; available_at = none } in
    let held = make_ready (e'.seq + 1) moved (take_in moved dest) in
    record (store dest_name (record held { dlq_ids = dest.dlq_ids ++ m.id ∷ [] }) e') {
      by_id = put m.id dest_name e'.by_id;
      seq = e'.seq + 1;
    }

unfoldable pub move_to_dlq : Str → DurableQueue → Message → Bool → Engine → Engine
move_to_dlq name q m persist e =
    let buried = bury name q m persist e in
    if q.spec.dead_letter then dead_letter_to (dlq_name q.spec.name) m buried else buried

-- The branch of `_retry_or_dead` that tries again; `m` has the new count of attempts.
unfoldable pub delay_retry : ℕ → Str → DurableQueue → Message → Bool → Engine → Engine
delay_retry when name q m persist e =
    let later = record m { available_at = some when } in
    let queue = record q {
      messages = put m.id later q.messages;
      delayed_ids = add m.id q.delayed_ids;
      stats = record q.stats { retried = q.stats.retried + 1 };
    } in
    let entry : Deadline = record {
      when = when;
      seq = e.seq + 1;
      queue = q.spec.name;
      id = m.id;
    } in
    log persist (message_delay m.id q.spec.name when m.attempts)
      (record (store name queue e) { seq = e.seq + 1; delayed = push_deadline entry e.delayed })

unfoldable pub retry_or_dead : ℕ → Str → DurableQueue → Message → Bool → Engine → Engine
retry_or_dead now name q given persist e =
    let m = record given { attempts = given.attempts + 1 } in
    let delay = retry_delay m.attempts e.settings.retry_backoff e.settings.retry_base_delay in
    if leb m.max_attempts m.attempts
    then move_to_dlq name q m persist e
    else delay_retry (now + delay) name q m persist e
