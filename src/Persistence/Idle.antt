-- ===== src/Persistence/Idle.antt =====
-- Engines without a delivery in flight: the operations that a replay calls keep them so, and `ack` and
-- `nack` find nothing in them.
use one_open_broker.Prelude.{
  ℕ, zero, suc, ◌≡◌, ◌∙◌, refl, sym, ap, Bool, true, false, none, some, [], Str, str_eq, arith,
  if◌then◌else◌, Bool-cases, Option-cases, inl, inr,
}
use one_open_broker.Dict.{Dict, get, put, remove, keys, get-put, get-remove}
use one_open_broker.Core.Names.{dlq_name, origin_queue}
use one_open_broker.Core.Message.{Message}
use one_open_broker.Core.Results.{EnqueueResult}
use one_open_broker.Queue.State.{
  DurableQueue, Engine, JournalRecord, new_queue, store, log, queue_declare, queue_delete,
  message_publish, message_requeue,
}
use one_open_broker.Queue.Declare.{
  QueueOptions, spec_of, dlq_options, remove_all, declare_with, declare_plain, declare_queue,
  delete_fuel,
}
use one_open_broker.Queue.Publish.{
  is_future, is_full, take_in, make_ready, enqueue_later, enqueue_now, accept, enqueue,
}
use one_open_broker.Queue.Delivery.{ack, nack}
use one_open_broker.Queue.DeadLetters.{
  drop_ready, unbury, rebury, finish_requeue, revived, dlq_requeue,
}

-- No queue has a delivery in flight.
pub record IsIdle (d : Dict DurableQueue) : Type 0 where
  pub idle : (name : Str) (q : DurableQueue) → get name d ≡ some q → q.inflight ≡ []

IsIdle-put :
    (name : Str) (q : DurableQueue) (d : Dict DurableQueue)
    → IsIdle d
    → q.inflight ≡ []
    → IsIdle (put name q d)
IsIdle-put name q d i empty = record {
  idle = λ n r h. elim (Bool-cases (str_eq name n)) [
    | inl same ↦
        let is_q : q ≡ r = ground (arith, get-put name n q d) in
        sym (ap (λ (x : DurableQueue). x.inflight) is_q) ∙ empty
    | inr other ↦ i.idle n r (ground (arith, get-put name n q d))
  ];
}

IsIdle-remove : (name : Str) (d : Dict DurableQueue) → IsIdle d → IsIdle (remove name d)
IsIdle-remove name d i = record { idle = λ n r h. i.idle n r (ground (arith, get-remove name n d)) }

-- Nothing in the journal is written during a replay.
pub IsIdle-log :
    (rec : JournalRecord) (persist : Bool) (e : Engine)
    → IsIdle e.queues
    → IsIdle (log persist rec e).queues
unfolding log
IsIdle-log rec true e i = i
IsIdle-log rec false e i = i

IsIdle-if :
    (b : Bool) (x y : Engine)
    → IsIdle x.queues
    → IsIdle y.queues
    → IsIdle (if b then x else y).queues
IsIdle-if true x y i j = i
IsIdle-if false x y i j = j

IsIdle-declare_with :
    (nested : Str → QueueOptions → Engine → Engine) (name : Str) (o : QueueOptions) (persist : Bool)
    (e : Engine)
    → ((n : Str) (p : QueueOptions) (x : Engine) → IsIdle x.queues → IsIdle (nested n p x).queues)
    → IsIdle e.queues
    → IsIdle (declare_with nested name o persist e).0.queues
unfolding declare_with store
IsIdle-declare_with nested name o persist e keeps i = elim (Option-cases (get name e.queues)) [
  | inr (q, k) ↦ rw (k, declare_with) i
  | inl n ↦
      let spec = spec_of e.settings name o in
      let added = IsIdle-put name (new_queue spec) e.queues i refl in
      rw (n, declare_with)
        (IsIdle-log (queue_declare spec) persist _
          (IsIdle-if spec.dead_letter _ _ (keeps (dlq_name name) (dlq_options spec) _ added) added))
]

pub IsIdle-declare_queue :
    (name : Str) (o : QueueOptions) (persist : Bool) (e : Engine)
    → IsIdle e.queues
    → IsIdle (declare_queue name o persist e).0.queues
unfolding declare_queue declare_plain
IsIdle-declare_queue name o persist e i =
    IsIdle-declare_with (declare_plain persist) name o persist e
      (λ n p x j. IsIdle-declare_with (λ _ _ e'. e') n p persist x (λ m r y k. k) j) i

pub ack_idle : (id : Str) (persist : Bool) (e : Engine) → IsIdle e.queues → (ack id persist e).0 ≡ e
unfolding ack get
ack_idle id persist e i = elim (Option-cases (get id e.by_id)) [
  | inl n ↦ ground arith
  | inr (name, n) ↦ elim (Option-cases (get name e.queues)) [
    | inl k ↦ ground arith
    | inr (q, k) ↦ ground (arith, i.idle name q k)
  ]
]

pub nack_idle :
    (now : ℕ) (id : Str) (requeue persist : Bool) (e : Engine)
    → IsIdle e.queues
    → (nack now id requeue persist e).0 ≡ e
unfolding nack get
nack_idle now id requeue persist e i = elim (Option-cases (get id e.by_id)) [
  | inl n ↦ ground arith
  | inr (name, n) ↦ elim (Option-cases (get name e.queues)) [
    | inl k ↦ ground arith
    | inr (q, k) ↦ ground (arith, i.idle name q k)
  ]
]

pub IsIdle-delete_fuel :
    (fuel : ℕ) (name : Str) (persist : Bool) (e : Engine)
    → IsIdle e.queues
    → IsIdle (delete_fuel fuel name persist e).0.queues
unfolding delete_fuel
IsIdle-delete_fuel zero name persist e i = i
IsIdle-delete_fuel (suc fuel) name persist e i = elim (Option-cases (get name e.queues)) [
  | inl n ↦ rw (n, delete_fuel) i
  | inr (q, k) ↦
      let popped =
        IsIdle-log (queue_delete name) persist
          (record e { queues = remove name e.queues; by_id = remove_all (keys q.messages) e.by_id })
          (IsIdle-remove name e.queues i) in
      rw (k, delete_fuel)
        (IsIdle-if q.spec.dead_letter _ _ (IsIdle-delete_fuel fuel (dlq_name name) persist _ popped)
          popped)
]

IsIdle-accept :
    (now : ℕ) (m : Message) (persist : Bool) (q : DurableQueue) (e : Engine)
    → get m.queue e.queues ≡ some q
    → IsIdle e.queues
    → IsIdle (accept now m persist q e).queues
unfolding accept enqueue_later enqueue_now store take_in make_ready
IsIdle-accept now m persist q e k i = elim (Bool-cases (is_future m.available_at now)) [
  | inr n ↦
      rw (n, accept)
        (IsIdle-log (message_publish (record m { available_at = none })) persist _
          (IsIdle-put m.queue _ e.queues i (i.idle m.queue q k)))
  | inl f ↦ elim (Option-cases m.available_at) [
    | inl a ↦ rw (f, accept) (rw a i)
    | inr (when, a) ↦
        rw (f, accept)
          (rw a (
            IsIdle-log (message_publish m) persist _
              (IsIdle-put m.queue _ e.queues i (i.idle m.queue q k))))
  ]
]

pub IsIdle-enqueue :
    (now : ℕ) (m : Message) (persist : Bool) (e : Engine)
    → IsIdle e.queues
    → IsIdle (enqueue now m persist e).0.queues
unfolding enqueue
IsIdle-enqueue now m persist e i = elim (Option-cases (get m.queue e.queues)) [
  | inl n ↦ rw (n, enqueue) i
  | inr (q, k) ↦ elim (Bool-cases (is_full q)) [
    | inl full ↦ rw (k, enqueue) (rw full i)
    | inr room ↦ rw (k, enqueue) (rw room (IsIdle-accept now m persist q e k i))
  ]
]

IsIdle-rebury :
    (dlq id : Str) (m : Message) (e : Engine) → IsIdle e.queues → IsIdle (rebury dlq id m e).queues
unfolding rebury store
IsIdle-rebury dlq id m e i = elim (Option-cases (get dlq e.queues)) [
  | inl n ↦ rw (n, rebury) i
  | inr (q, k) ↦ rw (k, rebury) (IsIdle-put dlq _ e.queues i (i.idle dlq q k))
]

IsIdle-finish_requeue :
    (dlq origin id : Str) (m : Message) (persist : Bool) (x : Engine × EnqueueResult)
    → IsIdle x.0.queues
    → IsIdle (finish_requeue dlq origin id m persist x).0.queues
unfolding finish_requeue
IsIdle-finish_requeue dlq origin id m persist (e, EnqueueResult.ok) i =
    IsIdle-log (message_requeue id dlq origin) persist e i
IsIdle-finish_requeue dlq origin id m persist (e, EnqueueResult.queue_full) i =
    IsIdle-rebury dlq id m e i
IsIdle-finish_requeue dlq origin id m persist (e, EnqueueResult.not_found) i =
    IsIdle-rebury dlq id m e i

pub IsIdle-dlq_requeue :
    (now : ℕ) (name id : Str) (persist : Bool) (e : Engine)
    → IsIdle e.queues
    → IsIdle (dlq_requeue now name id persist e).0.queues
unfolding dlq_requeue unbury drop_ready store
IsIdle-dlq_requeue now name id persist e i =
    let origin = origin_queue name in
    let dlq = dlq_name origin in
    elim (Option-cases (get dlq e.queues)) [
      | inl n ↦ rw (n, dlq_requeue) i
      | inr (q, k) ↦ elim (Option-cases (get origin e.queues)) [
        | inl n ↦ rw (k, dlq_requeue) (rw n i)
        | inr (dest, j) ↦ elim (Option-cases (get id q.messages)) [
          | inl n ↦ rw (k, dlq_requeue) (rw (j, n) i)
          | inr (m, found) ↦
              rw (k, dlq_requeue)
                (rw (j, found)
                  (IsIdle-finish_requeue dlq origin id (revived origin m) persist _ (
                    IsIdle-enqueue now (revived origin m) false _
                      (IsIdle-put dlq _ e.queues i (i.idle dlq q k)))))
        ]
      ]
    ]
