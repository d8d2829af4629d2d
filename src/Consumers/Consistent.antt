-- ===== src/Consumers/Consistent.antt =====
-- The operations of the registry keep the indexes of the queue engine consistent.
use one_open_broker.Prelude.{
  ℕ, zero, suc, ◌+◌, ◌%◌, ◌≡◌, refl, Bool, true, false, Option, none, some, List, [], ◌∷◌, Str,
  length, Bool-cases, Option-cases, inl, inr,
}
use one_open_broker.Dict.{get}
use one_open_broker.Core.Message.{Message}
use one_open_broker.Queue.State.{DurableQueue, Engine, store}
use one_open_broker.Queue.Declare.{default_options, declare_queue}
use one_open_broker.Queue.Delivery.{reserve}
use one_open_broker.Queue.Consistent.{IsConsistent, IsTracked}
use one_open_broker.Queue.Consistent.Store.{Consistent-same}
use one_open_broker.Queue.Consistent.Declare.{declare_queue-IsConsistent, declare_queue_found}
use one_open_broker.Queue.Consistent.Reserve.{reserve-IsConsistent}
use one_open_broker.Queue.Consistent.Recover.{recover_consumer-IsConsistent}
use one_open_broker.Consumers.State.{
  Consumer, Manager, enlist, register_queues, register, delist, cancel, cancel_all,
  disconnect_connection,
}
use one_open_broker.Consumers.Delivery.{nth, advance, eligible, hand_to, try_rounds, try_reserve}

IsTracked-consumers :
    {name : Str} (q : DurableQueue) (ids : List Str) (i : ℕ)
    → IsTracked name q
    → IsTracked name (record q { consumer_ids = ids; rr_index = i })
IsTracked-consumers q ids i t = record {
  keyed = record {
    spec = t.keyed.spec;
    messages = t.keyed.messages;
    deliveries = t.keyed.deliveries;
  };
  once = t.once;
}

-- Who consumes a queue, and whose turn it is, is no part of the indexes.
IsConsistent-consumers :
    (name : Str) (q : DurableQueue) (ids : List Str) (i : ℕ) (e : Engine)
    → get name e.queues ≡ some q
    → IsConsistent e
    → IsConsistent (store name (record q { consumer_ids = ids; rr_index = i }) e)
unfolding store
IsConsistent-consumers name q ids i e h c =
    Consistent-same q _ c h (IsTracked-consumers q ids i (c.tracked name q h)) (λ id. refl)

module _ (now : ℕ) (name : Str) where
  hand_to-IsConsistent :
      (id : Str) (c : Consumer) (m : Manager)
      → IsConsistent m.engine
      → IsConsistent (hand_to now name id c m).0.engine
  unfolding hand_to
  hand_to-IsConsistent id c m k = elim (Option-cases (reserve now name id m.engine).1) [
    | inl n ↦ rw (n, hand_to) (reserve-IsConsistent now name id m.engine k)
    | inr (message, s) ↦ rw (s, hand_to) (reserve-IsConsistent now name id m.engine k)
  ]

  try_rounds-IsConsistent :
      (n : ℕ) (ids : List Str) (rounds : ℕ) (m : Manager)
      → IsConsistent m.engine
      → IsConsistent (try_rounds now n name ids rounds m).0.engine
  unfolding try_rounds advance
  try_rounds-IsConsistent n ids zero m k = k
  try_rounds-IsConsistent n ids (suc rounds) m k = elim (Option-cases (get name m.engine.queues)) [
    | inl gone ↦ rw (gone, try_rounds) k
    | inr (q, h) ↦
        let moved : Manager = record m { engine = advance name q m.engine } in
        let moved_on = IsConsistent-consumers name q q.consumer_ids (q.rr_index + 1) m.engine h k in
        let later = try_rounds-IsConsistent n ids rounds moved moved_on in
        elim (Option-cases (nth ids (q.rr_index % n))) [
          | inl out ↦ rw (h, try_rounds) (rw out later)
          | inr (id, at) ↦ elim (Option-cases (get id m.consumers)) [
            | inl gone ↦ rw (h, try_rounds) (rw (at, gone) later)
            | inr (c, found) ↦ elim (Bool-cases (eligible c)) [
              | inl fit ↦
                  rw (h, try_rounds)
                    (rw (at, found) (rw fit (hand_to-IsConsistent id c moved moved_on)))
              | inr busy ↦ rw (h, try_rounds) (rw (at, found) (rw busy later))
            ]
          ]
        ]
  ]

  pub try_reserve-IsConsistent :
      (m : Manager) → IsConsistent m.engine → IsConsistent (try_reserve now name m).0.engine
  unfolding try_reserve
  try_reserve-IsConsistent m k = elim (Option-cases (get name m.engine.queues)) [
    | inl gone ↦ rw (gone, try_reserve) k
    | inr (q, h) ↦
        rw (h, try_reserve)
          (elim q.consumer_ids
            as (λ ids.
              IsConsistent
                (elim ids as (λ _. Manager × Option (Consumer × Message)) [
                  | [] ↦ (m, none)
                  | id ∷ rest ↦
                      try_rounds now (length q.consumer_ids) name q.consumer_ids
                        (length q.consumer_ids) m
                ]).0.engine) [
                  | [] ↦ k
                  | id ∷ rest ↦
                      try_rounds-IsConsistent (length q.consumer_ids) q.consumer_ids
                        (length q.consumer_ids) m k
                ])
  ]

register_queues-IsConsistent :
    (consumer_id : Str) (names : List Str) (e : Engine)
    → IsConsistent e
    → IsConsistent (register_queues consumer_id names e)
unfolding register_queues enlist
register_queues-IsConsistent consumer_id [] e c = c
register_queues-IsConsistent consumer_id (name ∷ names) e c =
    register_queues-IsConsistent consumer_id names _ (
      IsConsistent-consumers name (declare_queue name default_options true e).1 _ _
        (declare_queue name default_options true e).0
        (declare_queue_found name default_options true e)
        (declare_queue-IsConsistent name default_options true e c))

pub register-IsConsistent :
    (now : ℕ) (consumer_id connection_id : Str) (queues : List Str) (prefetch : ℕ) (tag : Str)
    (m : Manager)
    → IsConsistent m.engine
    → IsConsistent (register now consumer_id connection_id queues prefetch tag m).0.engine
unfolding register
register-IsConsistent now consumer_id connection_id queues prefetch tag m c =
    register_queues-IsConsistent consumer_id queues m.engine c

delist-IsConsistent :
    (consumer_id : Str) (names : List Str) (e : Engine)
    → IsConsistent e
    → IsConsistent (delist consumer_id names e)
unfolding delist
delist-IsConsistent consumer_id [] e c = c
delist-IsConsistent consumer_id (name ∷ names) e c = elim (Option-cases (get name e.queues)) [
  | inl gone ↦ rw (gone, delist) (delist-IsConsistent consumer_id names e c)
  | inr (q, h) ↦
      rw (h, delist)
        (delist-IsConsistent consumer_id names _ (IsConsistent-consumers name q _ q.rr_index e h c))
]

pub cancel-IsConsistent :
    (now : ℕ) (consumer_id : Str) (recover : Bool) (m : Manager)
    → IsConsistent m.engine
    → IsConsistent (cancel now consumer_id recover m).0.engine
unfolding cancel
cancel-IsConsistent now consumer_id recover m c =
    elim (Option-cases (get consumer_id m.consumers)) [
      | inl gone ↦ rw (gone, cancel) c
      | inr (x, found) ↦
          let out = delist-IsConsistent consumer_id x.queues m.engine c in
          elim (Bool-cases recover) [
            | inl yes_do ↦
                rw (found, cancel)
                  (rw yes_do (recover_consumer-IsConsistent now consumer_id true _ out))
            | inr stay ↦ rw (found, cancel) (rw stay out)
          ]
    ]

cancel_all-IsConsistent :
    (now : ℕ) (ids : List Str) (n : ℕ) (m : Manager)
    → IsConsistent m.engine
    → IsConsistent (cancel_all now ids n m).0.engine
unfolding cancel_all
cancel_all-IsConsistent now [] n m c = c
cancel_all-IsConsistent now (id ∷ ids) n m c =
    let left = cancel-IsConsistent now id true m c in
    elim (Option-cases (cancel now id true m).1) [
      | inl raised ↦ rw (raised, cancel_all) left
      | inr (true, done) ↦
          rw (done, cancel_all)
            (cancel_all-IsConsistent now ids (n + 1) (cancel now id true m).0 left)
      | inr (false, done) ↦
          rw (done, cancel_all) (cancel_all-IsConsistent now ids n (cancel now id true m).0 left)
    ]

pub disconnect_connection-IsConsistent :
    (now : ℕ) (connection_id : Str) (m : Manager)
    → IsConsistent m.engine
    → IsConsistent (disconnect_connection now connection_id m).0.engine
unfolding disconnect_connection
disconnect_connection-IsConsistent now connection_id m c = cancel_all-IsConsistent now _ 0 m c
