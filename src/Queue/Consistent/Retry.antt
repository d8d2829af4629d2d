-- ===== src/Queue/Consistent/Retry.antt =====
-- `_retry_or_dead` and `_move_to_dlq` keep the indexes consistent.
use one_open_broker.Prelude.{
  ℕ, ◌+◌, ◌≡◌, ◌∙◌, refl, sym, Bool, true, false, none, some, List, Str, str_eq, str_eq_iff,
  str_eq_refl, if◌then◌else◌, arith,
}
use one_open_broker.Dict.{get, has, get-remove, has-put, has-remove}
use one_open_broker.Core.Message.{Message}
use one_open_broker.Queue.State.{DurableQueue, Engine, store, log}
use one_open_broker.Queue.Declare.{declare_queue}
use one_open_broker.Queue.Publish.{make_ready, take_in}
use one_open_broker.Queue.Retry.{bury, dead_letter_to, move_to_dlq, delay_retry, retry_or_dead}
use one_open_broker.Queue.Consistent.{
  IsConsistent, IsTracked, IsLoose, log-IsConsistent, if-IsConsistent,
}
use one_open_broker.Queue.Consistent.Store.{Consistent-same, Consistent-drop, Consistent-add}
use one_open_broker.Queue.Consistent.Places.{
  loose_stored, IsLoose-bury, IsLoose-delay, IsLoose-make_ready, take_in-IsLoose,
}
use one_open_broker.Queue.Consistent.Declare.{
  declare_queue-IsConsistent, declare_dest, dest_options,
}

-- No place depends on the list of dead letters.
pub IsTracked-dlq_ids :
    {name : Str} {q : DurableQueue} (ids : List Str)
    → IsTracked name q
    → IsTracked name (record q { dlq_ids = ids })
IsTracked-dlq_ids ids t = record {
  keyed = record {
    spec = t.keyed.spec;
    messages = t.keyed.messages;
    deliveries = t.keyed.deliveries;
  };
  once = t.once;
}

-- A queue does not store a message of which `_by_id` knows nothing.
pub not_stored :
    (name id : Str) (q : DurableQueue) (e : Engine)
    → IsConsistent e
    → get name e.queues ≡ some q
    → get id e.by_id ≡ none
    → has id q.messages ≡ false
not_stored name id q e c h n = ground (arith, c.owned name id)

pub has-make_ready :
    (n : ℕ) (m : Message) (q : DurableQueue) (id : Str)
    → has id (make_ready n m (take_in m q)).messages
      ≡ (if str_eq m.id id then true else has id q.messages)
unfolding make_ready take_in
has-make_ready n m q id = has-put m.id id m q.messages

-- A message that no queue stores goes into a dead-letter queue.
pub dead_letter_to-IsConsistent :
    (dest_name : Str) (m : Message) (e : Engine)
    → IsConsistent e
    → get m.id e.by_id ≡ none
    → IsConsistent (dead_letter_to dest_name m e)
unfolding dead_letter_to store
dead_letter_to-IsConsistent dest_name m e c absent =
    let (there, same_ids) = declare_dest dest_name e in
    let c' = declare_queue-IsConsistent dest_name dest_options false e c in
    let (e', dest) = declare_queue dest_name dest_options false e in
    let gone : get m.id e'.by_id ≡ none = rw same_ids absent in
    let moved : Message = record m { queue = dest_name; available_at = none } in
    Consistent-add m.id dest _ c' there
      (IsTracked-dlq_ids _ (
        IsLoose-make_ready (e'.seq + 1) moved (
          take_in-IsLoose moved refl (not_stored dest_name m.id dest e' c' there gone)
            (c'.tracked dest_name dest there))))
      gone (has-make_ready (e'.seq + 1) moved dest)

-- The queue `q` has had the delivery of `m` taken out; the engine still has it as `old`.
module _ (name : Str) (old q : DurableQueue) (m : Message) (persist : Bool) (e : Engine)
    (c : IsConsistent e) (h : get name e.queues ≡ some old)
    (same : (id : Str) → has id q.messages ≡ has id old.messages) (l : IsLoose m.id name q) where
  bury-IsConsistent : IsConsistent (bury name q m persist e)
  unfolding bury store
  bury-IsConsistent = log-IsConsistent persist _ _ (
      Consistent-drop m.id old _ c h (IsLoose-bury m.id _ l) (sym (same m.id) ∙ loose_stored m.id l)
        (λ j. ground (arith, has-remove m.id j q.messages, same j)))

  by_id-bury : get m.id (bury name q m persist e).by_id ≡ none
  unfolding bury store log
  by_id-bury = ground (arith, get-remove m.id m.id e.by_id, str_eq_refl m.id)

  pub move_to_dlq-IsConsistent : IsConsistent (move_to_dlq name q m persist e)
  unfolding move_to_dlq
  move_to_dlq-IsConsistent =
      if-IsConsistent q.spec.dead_letter _ _
        (dead_letter_to-IsConsistent _ m _ bury-IsConsistent by_id-bury) bury-IsConsistent

  pub delay_retry-IsConsistent :
      (when : ℕ) → m.queue ≡ name → IsConsistent (delay_retry when name q m persist e)
  unfolding delay_retry store
  delay_retry-IsConsistent when placed = log-IsConsistent persist _ _ (
      Consistent-same old _ c h (IsLoose-delay (record m { available_at = some when }) _ placed l)
        λ j. ground (
          arith,
          has-put m.id j (record m { available_at = some when }) q.messages,
          same j,
          loose_stored m.id l,
          str_eq_iff m.id j,
        ))

pub retry_or_dead-IsConsistent :
    (now : ℕ) (name : Str) (old q : DurableQueue) (m : Message) (persist : Bool) (e : Engine)
    → IsConsistent e
    → get name e.queues ≡ some old
    → ((id : Str) → has id q.messages ≡ has id old.messages)
    → IsLoose m.id name q
    → m.queue ≡ name
    → IsConsistent (retry_or_dead now name q m persist e)
unfolding retry_or_dead
retry_or_dead-IsConsistent now name old q m persist e c h same l placed =
    if-IsConsistent _ _ _
      (move_to_dlq-IsConsistent name old q (record m { attempts = m.attempts + 1 }) persist e c h
        same l)
      (delay_retry-IsConsistent name old q (record m { attempts = m.attempts + 1 }) persist e c h
        same l _ placed)
