-- ===== src/Queue/Timers.antt =====
-- `tick`: delayed messages that are due become ready, and deliveries that timed out are given back.
use one_open_broker.Prelude.{
  ℕ, ◌+◌, Bool, true, Option, none, some, List, [], ◌∷◌, Str, if◌then◌else◌, leb, ◌==◌,
}
use one_open_broker.Dict.{get, put, remove, has, contains, discard}
use one_open_broker.Core.Entries.{Deadline}
use one_open_broker.Queue.State.{Engine, store}
use one_open_broker.Queue.Publish.{make_ready}
use one_open_broker.Queue.Retry.{retry_or_dead}
use one_open_broker.Queue.Declare.{given_or}

-- `DelayedHeap.pop_due`: the due entries that `still_delayed` keeps, and the heap that is left.
unfoldable pub pop_due : ℕ → (Str → Bool) → List Deadline → List (Str × Str) × List Deadline
pop_due now still_delayed [] = ([], [])
pop_due now still_delayed (x ∷ heap) =
    let (due, rest) = pop_due now still_delayed heap in
    if leb x.when now
    then (if still_delayed x.id then (x.queue, x.id) ∷ due else due, rest)
    else ([], x ∷ heap)

-- The body of the loop of `_release_delayed`.
unfoldable pub release_one : Str → Str → Engine → Engine × ℕ
release_one queue_name message_id e = elim (get queue_name e.queues) [
  | none ↦ (e, 0)
  | some q ↦
      if contains message_id q.delayed_ids
      then (let woken = record q { delayed_ids = discard message_id q.delayed_ids } in
          elim (get message_id q.messages) [
            | none ↦ (store queue_name woken e, 0)
            | some m ↦
                if has message_id q.inflight
                then (store queue_name woken e, 0)
                else (let due = record m { available_at = none } in
                    let messages = put message_id due q.messages in
                    let queue = make_ready (e.seq + 1) due (record woken { messages = messages }) in
                    (record (store queue_name queue e) { seq = e.seq + 1 }, 1))
          ])
      else (e, 0)
]

unfoldable pub release_all : List (Str × Str) → Engine → Engine × ℕ
release_all [] e = (e, 0)
release_all ((queue_name, message_id) ∷ due) e =
    let (e', n) = release_one queue_name message_id e in
    let (e'', k) = release_all due e' in (e'', n + k)

unfoldable pub release_delayed : ℕ → Engine → Engine × ℕ
release_delayed ts e =
    let (due, rest) = pop_due ts (λ id. true) e.delayed in
    release_all due (record e { delayed = rest })

-- The body of the loop of `_timeout_inflight`, for a heap entry that was popped.
unfoldable pub timeout_one : ℕ → Deadline → Engine → Engine × ℕ
timeout_one now x e = elim (get x.queue e.queues) [
  | none ↦ (e, 0)
  | some q ↦ elim (get x.id q.inflight) [
    | none ↦ (e, 0)
    | some r ↦
        if r.visibility_deadline == x.when
        then (let taken = record q { inflight = remove x.id q.inflight } in
            elim (get x.id q.messages) [
              | none ↦ (store x.queue taken e, 0)
              | some m ↦ (retry_or_dead now x.queue taken m true e, 1)
            ])
        else (e, 0)
  ]
]

-- The loop pops entries from the front; nothing in it pushes on this heap.
unfoldable pub timeout_from : ℕ → ℕ → List Deadline → Engine → Engine × ℕ
timeout_from now ts [] e = (record e { visibility_heap = [] }, 0)
timeout_from now ts (x ∷ heap) e =
    let popped = record e { visibility_heap = heap } in
    let (e', n) = timeout_one now x popped in
    let (e'', k) = timeout_from now ts heap e' in
    if leb x.when ts then (e'', n + k) else (record e { visibility_heap = x ∷ heap }, 0)

unfoldable pub timeout_inflight : ℕ → ℕ → Engine → Engine × ℕ
timeout_inflight now ts e = timeout_from now ts e.visibility_heap e

-- `clock` is the reading of the clock, `now` the argument, which is the reading if left out.
unfoldable pub tick : ℕ → Option ℕ → Engine → Engine × ℕ
tick clock now e =
    let ts = given_or now clock in
    let (e', n) = release_delayed ts e in
    let (e'', k) = timeout_inflight clock ts e' in (e'', n + k)
