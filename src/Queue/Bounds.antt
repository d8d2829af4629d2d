-- ===== src/Queue/Bounds.antt =====
-- The length limit of a queue.
use one_open_broker.Prelude.{
  ℕ, ◌+◌, ◌≤◌, ◌<◌, ◌≡◌, ◌↔◌, Bool, Option, none, some, Str, str_eq_refl, arith, Bool-cases,
  Option-cases, inl, inr,
}
use one_open_broker.Dict.{Dict, get, put, get-put, length-add-le}
use one_open_broker.Core.Message.{Message}
use one_open_broker.Core.Heap.{length-push}
use one_open_broker.Core.Entries.{ready_before, push_ready}
use one_open_broker.Core.Results.{EnqueueResult}
use one_open_broker.Queue.State.{DurableQueue, Engine, depth, store}
use one_open_broker.Queue.Publish.{
  is_full, is_future, make_ready, take_in, enqueue_later, enqueue_now, accept, enqueue,
}
use one_open_broker.Queue.Consistent.{log-queues}

-- How long the queue of that name is; 0 if there is none.
abbrev pub depth_in : Option DurableQueue → ℕ
depth_in none = 0
depth_in (some q) = depth q

depth_in-put :
    (name : Str) (q : DurableQueue) (d : Dict DurableQueue)
    → depth_in (get name (put name q d)) ≡ depth q
depth_in-put name q d = ground (arith, get-put name name q d, str_eq_refl name)

module _ (now : ℕ) (m : Message) (persist : Bool) (q : DurableQueue) (e : Engine) where
  depth-enqueue_later :
      (when : ℕ) → depth_in (get m.queue (enqueue_later when m persist q e).queues) ≤ depth q + 1
  unfolding enqueue_later store
  depth-enqueue_later when =
      rw (log-queues, depth_in-put)
        (unfold depth take_in in omega (arith, length-add-le m.id q.delayed_ids))

  depth-enqueue_now : depth_in (get m.queue (enqueue_now m persist q e).queues) ≤ depth q + 1
  unfolding enqueue_now store
  depth-enqueue_now =
      rw (log-queues, depth_in-put)
        (unfold depth take_in make_ready push_ready in
          omega (arith, length-push ready_before _ q.ready))

  depth-accept :
      get m.queue e.queues ≡ some q
      → depth_in (get m.queue (accept now m persist q e).queues) ≤ depth q + 1
  unfolding accept
  depth-accept h = elim (Bool-cases (is_future m.available_at now)) [
    | inr n ↦ rw n depth-enqueue_now
    | inl f ↦ rw f (elim (Option-cases m.available_at) [
      | inl a ↦ rw a (ground arith)
      | inr (when, a) ↦ rw a (depth-enqueue_later when)
    ])
  ]

-- For a queue with a length limit, `enqueue` answers OK exactly if the depth is below the limit, and
-- after OK the depth is at most the limit.
pub enqueue_within_limit :
    (now limit : ℕ) (m : Message) (persist : Bool) (q : DurableQueue) (e : Engine)
    → get m.queue e.queues ≡ some q
    → q.spec.max_length ≡ some limit
    → (((enqueue now m persist e).1 ≡ EnqueueResult.ok) ↔ (depth q < limit))
      × ((enqueue now m persist e).1 ≡ EnqueueResult.ok
          → depth_in (get m.queue (enqueue now m persist e).0.queues) ≤ limit)
unfolding enqueue is_full
enqueue_within_limit now limit m persist q e h l =
    ((λ k. ground arith, λ k. ground arith), λ k. ground (arith, depth-accept now m persist q e h))
