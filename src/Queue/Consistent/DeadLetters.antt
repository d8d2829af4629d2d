-- ===== src/Queue/Consistent/DeadLetters.antt =====
-- `dlq_requeue` keeps the indexes consistent, for a dead letter that is not being delivered.
use mathlib.Core.Path.{subst}
use one_open_broker.Prelude.Int.{negate}
use one_open_broker.Prelude.{
  ℕ, ◌+◌, ◌≡◌, ◌≢◌, ◌∙◌, refl, sym, ap, Bool, true, false, none, some, List, [], ◌∷◌, map, Str,
  arith, Option-cases, inl, inr, if◌then◌else◌, str_eq, str_eq_iff, str_eq_refl,
}
use one_open_broker.Dict.{
  get, put, has, has-put, has-remove, get-remove, has-of-get, contains, count,
}
use one_open_broker.Core.Message.{Message}
use one_open_broker.Core.Names.{dlq_name, origin_queue}
use one_open_broker.Core.Results.{EnqueueResult}
use one_open_broker.Core.Entries.{ReadyEntry, ready_before, push_ready}
use one_open_broker.Core.Heap.{count-push}
use one_open_broker.Queue.State.{DurableQueue, Engine, store}
use one_open_broker.Queue.Publish.{enqueue}
use one_open_broker.Queue.DeadLetters.{
  without_id, unbury, rebury, finish_requeue, revived, dlq_requeue,
}
use one_open_broker.Queue.Consistent.{Consistent, IsConsistent, log-IsConsistent}
use one_open_broker.Queue.Consistent.Store.{Consistent-drop, Consistent-add}
use one_open_broker.Queue.Consistent.Places.{MessagesKeyed-put, MessagesKeyed-remove}
use one_open_broker.Queue.Consistent.Publish.{enqueue-IsConsistent}
use one_open_broker.Queue.Consistent.Retry.{not_stored}

count-without_id :
    (id j : Str) (xs : List ReadyEntry)
    → count j (map (λ (x : ReadyEntry). x.id) (without_id id xs))
      ≡ (if str_eq id j then 0 else count j (map (λ (x : ReadyEntry). x.id) xs))
unfolding without_id count
count-without_id id j [] = ground arith
count-without_id id j (x ∷ xs) =
    ground (arith, count-without_id id j xs, str_eq_iff x.id id, str_eq_iff x.id j, str_eq_iff id j)

module _ (dlq id : Str) (q : DurableQueue) (e : Engine) (c : IsConsistent e)
    (h : get dlq e.queues ≡ some q) (there : has id q.messages ≡ true)
    (landed : has id q.inflight ≡ false) (awake : contains id q.delayed_ids ≡ false) where
  unbury-IsConsistent : IsConsistent (unbury dlq id q e)
  unfolding unbury store
  unbury-IsConsistent =
      let t = c.tracked dlq q h in
      Consistent-drop id q _ c h
        (record {
          keyed = record {
            spec = t.keyed.spec;
            messages = MessagesKeyed-remove dlq id q.messages t.keyed.messages;
            deliveries = t.keyed.deliveries;
          };
          once = λ j. ground (
            arith,
            t.once j,
            count-without_id id j q.ready,
            has-remove id j q.messages,
            str_eq_iff id j,
          );
        })
        there (λ j. has-remove id j q.messages)

  by_id-unbury : get id (unbury dlq id q e).by_id ≡ none
  unfolding unbury store
  by_id-unbury = rw (get-remove, str_eq_refl) refl

module _ (dlq id : Str) (m : Message) (e : Engine) (c : IsConsistent e) (same_id : m.id ≡ id) where
  rebury-IsConsistent : get id e.by_id ≡ none → IsConsistent (rebury dlq id m e)
  unfolding rebury store push_ready
  rebury-IsConsistent fresh = elim (Option-cases (get dlq e.queues)) [
    | inl h ↦ rw (h, rebury) c
    | inr (q, h) ↦
        let t = c.tracked dlq q h in
        let back : Message = record m { queue = q.spec.name } in
        let entry : ReadyEntry = record { rank = negate m.priority; seq = e.seq + 1; id = id } in
        let queue : DurableQueue = record q {
          messages = put id back q.messages;
          ready = push_ready entry q.ready;
        } in
        rw (h, rebury)
          (subst (λ owner. Consistent (put dlq queue e.queues) (put id owner e.by_id))
            (sym t.keyed.spec.0)
            (Consistent-add id q queue c h
              (record {
                keyed = record {
                  spec = t.keyed.spec;
                  messages =
                      MessagesKeyed-put dlq id back q.messages t.keyed.messages same_id
                        t.keyed.spec.0;
                  deliveries = t.keyed.deliveries;
                };
                once = λ j. ground (
                  arith,
                  t.once j,
                  not_stored dlq id q e c h fresh,
                  count-push ready_before (λ x. x.id) j entry q.ready,
                  has-put id j back q.messages,
                  str_eq_iff id j,
                );
              })
              fresh (λ j. has-put id j back q.messages)))
  ]

  finish_requeue-IsConsistent :
      (origin : Str) (persist : Bool) (r : EnqueueResult)
      → (r ≢ EnqueueResult.ok → get id e.by_id ≡ none)
      → IsConsistent (finish_requeue dlq origin id m persist (e, r)).0
  unfolding finish_requeue
  finish_requeue-IsConsistent origin persist EnqueueResult.ok n = log-IsConsistent persist _ e c
  finish_requeue-IsConsistent origin persist EnqueueResult.queue_full n =
      rebury-IsConsistent (n (λ p. cc))
  finish_requeue-IsConsistent origin persist EnqueueResult.not_found n =
      rebury-IsConsistent (n (λ p. cc))

-- What `enqueue` refuses it leaves as it was.
enqueue_refused :
    (now : ℕ) (m : Message) (persist : Bool) (e : Engine)
    → (enqueue now m persist e).1 ≢ EnqueueResult.ok
    → (enqueue now m persist e).0 ≡ e
unfolding enqueue
enqueue_refused now m persist e n = ground arith

module _ (now : ℕ) (dlq origin id : Str) (persist : Bool) (q : DurableQueue) (e : Engine)
    (c : IsConsistent e) (h : get dlq e.queues ≡ some q) (landed : has id q.inflight ≡ false)
    (awake : contains id q.delayed_ids ≡ false) where
  requeued-IsConsistent :
      (m : Message)
      → get id q.messages ≡ some m
      → IsConsistent
          (finish_requeue dlq origin id
            (revived origin m)
            persist
            (enqueue now (revived origin m) false (unbury dlq id q e))).0
  unfolding revived
  requeued-IsConsistent m found =
      let (same_id, _) = (c.tracked dlq q h).keyed.messages id m found in
      let there = has-of-get id q.messages found in
      let out = unbury dlq id q e in
      let c' = unbury-IsConsistent dlq id q e c h there landed awake in
      let fresh = by_id-unbury dlq id q e c h there landed awake in
      let message = revived origin m in
      let fresh_m : get m.id out.by_id ≡ none = ap (λ k. get k out.by_id) same_id ∙ fresh in
      let c'' = enqueue-IsConsistent now message false out c' fresh_m in
      finish_requeue-IsConsistent dlq id message (enqueue now message false out).0 c'' same_id
        origin persist (enqueue now message false out).1
        (λ n.
          ap (λ (e' : Engine). get id e'.by_id) (enqueue_refused now message false out n) ∙ fresh)

-- Requeueing a dead letter keeps the indexes consistent, whether it succeeds or not, if no consumer
-- of the dead-letter queue holds the message and it is not waiting for a retry there.
pub dlq_requeue-IsConsistent :
    (now : ℕ) (name id : Str) (persist : Bool) (e : Engine)
    → IsConsistent e
    → ((q : DurableQueue)
        → get (dlq_name (origin_queue name)) e.queues ≡ some q
        → (has id q.inflight ≡ false) × (contains id q.delayed_ids ≡ false))
    → IsConsistent (dlq_requeue now name id persist e).0
unfolding dlq_requeue
dlq_requeue-IsConsistent now name id persist e c idle =
    elim (Option-cases (get (dlq_name (origin_queue name)) e.queues)) [
      | inl h ↦ rw (h, dlq_requeue) c
      | inr (q, h) ↦
          rw (h, dlq_requeue)
            (elim (Option-cases (get (origin_queue name) e.queues)) [
              | inl k ↦ rw k c
              | inr (dest, k) ↦ rw k (elim (Option-cases (get id q.messages)) [
                | inl gone ↦ rw gone c
                | inr (m, found) ↦
                    let (landed, awake) = idle q h in
                    rw found (requeued-IsConsistent now _ _ id persist q e c h landed awake m found)
              ])
            ])
    ]
