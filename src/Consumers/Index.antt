-- ===== src/Consumers/Index.antt =====
-- The index of consumers by connection misses none, so a connection that goes away takes all of its
-- consumers with it.
use one_open_broker.Prelude.{
  ℕ, zero, suc, ◌%◌, ◌≡◌, ◌∙◌, refl, sym, ap, Bool, true, Option, none, some, List, [], ◌∷◌, Str,
  str_eq, str_eq_iff, arith, length, if◌then◌else◌, Bool-cases, Option-cases, List-cases, inl, inr,
}
use one_open_broker.Dict.{
  Dict, get, put, remove, get-put, get-remove, contains, add, discard, contains-add,
  contains-discard,
}
use one_open_broker.Core.Message.{Message}
use one_open_broker.Core.Qos
use one_open_broker.Core.Qos.{QoS, set_prefetch, on_deliver}
use one_open_broker.Queue.Delivery.{reserve}
use one_open_broker.Consumers.State.{
  Consumer, Manager, or_empty, register, touch, qos, on_ack, leave, cancel,
}
use one_open_broker.Consumers.Delivery.{nth, advance, eligible, hand_to, try_rounds, try_reserve}

pub record IsIndexed (consumers : Dict Consumer) (by_connection : Dict (List Str)) : Type 0 where
  pub listed :
      (id : Str) (c : Consumer)
      → get id consumers ≡ some c
      → contains id (or_empty (get c.connection_id by_connection)) ≡ true

IsIndexed-put :
    (id : Str) (old new : Consumer) (d : Dict Consumer) (b : Dict (List Str))
    → get id d ≡ some old
    → new.connection_id ≡ old.connection_id
    → IsIndexed d b
    → IsIndexed (put id new d) b
IsIndexed-put id old new d b h same k = record {
  listed = λ j c g. elim (Bool-cases (str_eq id j)) [
    | inr other ↦ k.listed j c (ground (arith, g, other, get-put id j new d))
    | inl here ↦
        let is_new : new ≡ c = ground (arith, g, here, get-put id j new d) in
        let old_listed = k.listed id old h in
        let conn : c.connection_id ≡ old.connection_id =
          ap (λ (x : Consumer). x.connection_id) (sym is_new) ∙ same in
        rw (conn) (rw (sym ((str_eq_iff id j).0 here)) old_listed)
  ];
}

or_empty-put :
    (k j : Str) (s : List Str) (b : Dict (List Str))
    → or_empty (get j (put k s b)) ≡ (if str_eq k j then s else or_empty (get j b))
or_empty-put k j s b = ground (arith, get-put k j s b)

IsIndexed-add :
    (id : Str) (new : Consumer) (d : Dict Consumer) (b : Dict (List Str))
    → IsIndexed d b
    → IsIndexed
        (put id new d)
        (put new.connection_id (add id (or_empty (get new.connection_id b))) b)
IsIndexed-add id new d b k = record {
  listed = λ j c g.
      let conn = new.connection_id in
      let known = or_empty (get conn b) in
      let after = or_empty-put conn c.connection_id (add id known) b in
      elim (Bool-cases (str_eq id j)) [
        | inl here ↦
            let is_new : new ≡ c = ground (arith, g, here, get-put id j new d) in
            let same : conn ≡ c.connection_id = ap (λ (x : Consumer). x.connection_id) is_new in
            ground (
              arith,
              here,
              after,
              contains-add id j known,
              (str_eq_iff conn c.connection_id).1 same,
            )
        | inr other ↦
            let old = k.listed j c (ground (arith, g, other, get-put id j new d)) in
            ground (
              arith,
              old,
              after,
              contains-add id j known,
              str_eq_iff conn c.connection_id,
              ap (λ (x : Str). contains j (or_empty (get x b))),
            )
      ];
}

or_empty-leave :
    (id conn k : Str) (b : Dict (List Str))
    → or_empty (get k (leave id conn b))
      ≡ (if str_eq conn k then discard id (or_empty (get conn b)) else or_empty (get k b))
unfolding leave
or_empty-leave id conn k b = elim (Option-cases (get conn b)) [
  | inl gone ↦
      rw (gone, leave)
        (unfold discard in ground (arith, gone, str_eq_iff conn k, ap (λ (x : Str). get x b)))
  | inr (ids, there) ↦ elim (List-cases (discard id ids)) [
    | inl last ↦ rw (there, leave) (rw last (rw (get-remove) (ground arith)))
    | inr (x, xs, more) ↦ rw (there, leave) (rw more (rw (get-put) (ground arith)))
  ]
]

IsIndexed-leave :
    (id : Str) (old : Consumer) (d : Dict Consumer) (b : Dict (List Str))
    → IsIndexed d b
    → IsIndexed (remove id d) (leave id old.connection_id b)
IsIndexed-leave id old d b k = record {
  listed = λ j c g.
      let conn = old.connection_id in
      let before = k.listed j c (ground (arith, g, get-remove id j d)) in
      ground (
        arith,
        g,
        before,
        get-remove id j d,
        or_empty-leave id conn c.connection_id b,
        contains-discard id j (or_empty (get conn b)),
        str_eq_iff conn c.connection_id,
        ap (λ (x : Str). contains j (or_empty (get x b))),
      );
}

abbrev pub IsIndexedManager : Manager → Type 0
IsIndexedManager m = IsIndexed m.consumers m.by_connection

connection-touch :
    (now : ℕ) (f : QoS → QoS) (c : Consumer) → (touch now f c).connection_id ≡ c.connection_id
unfolding touch
connection-touch now f c = refl

pub register-IsIndexed :
    (now : ℕ) (id conn : Str) (queues : List Str) (prefetch : ℕ) (tag : Str) (m : Manager)
    → IsIndexedManager m
    → IsIndexedManager (register now id conn queues prefetch tag m).0
unfolding register
register-IsIndexed now id conn queues prefetch tag m k =
    IsIndexed-add id _ m.consumers m.by_connection k

pub qos-IsIndexed :
    (now : ℕ) (id : Str) (prefetch : ℕ) (m : Manager)
    → IsIndexedManager m
    → IsIndexedManager (qos now id prefetch m).0
unfolding qos
qos-IsIndexed now id prefetch m k = elim (Option-cases (get id m.consumers)) [
  | inl gone ↦ rw (gone, qos) k
  | inr (c, there) ↦
      rw (there, qos)
        (IsIndexed-put id c _ m.consumers m.by_connection there
          (connection-touch now (set_prefetch prefetch) c) k)
]

pub on_ack-IsIndexed :
    (now : ℕ) (id : Str) (m : Manager) → IsIndexedManager m → IsIndexedManager (on_ack now id m)
unfolding on_ack
on_ack-IsIndexed now id m k = elim (Option-cases (get id m.consumers)) [
  | inl gone ↦ rw (gone, on_ack) k
  | inr (c, there) ↦
      rw (there, on_ack)
        (IsIndexed-put id c _ m.consumers m.by_connection there (connection-touch now Qos.on_ack c)
          k)
]

module _ (now : ℕ) (name : Str) where
  hand_to-IsIndexed :
      (id : Str) (c : Consumer) (m : Manager)
      → get id m.consumers ≡ some c
      → IsIndexedManager m
      → IsIndexedManager (hand_to now name id c m).0
  unfolding hand_to
  hand_to-IsIndexed id c m there k = elim (Option-cases (reserve now name id m.engine).1) [
    | inl n ↦ rw (n, hand_to) k
    | inr (message, s) ↦
        rw (s, hand_to)
          (IsIndexed-put id c _ m.consumers m.by_connection there
            (connection-touch now (λ (x : QoS). (on_deliver x).0) c) k)
  ]

  try_rounds-IsIndexed :
      (n : ℕ) (ids : List Str) (rounds : ℕ) (m : Manager)
      → IsIndexedManager m
      → IsIndexedManager (try_rounds now n name ids rounds m).0
  unfolding try_rounds
  try_rounds-IsIndexed n ids zero m k = k
  try_rounds-IsIndexed n ids (suc rounds) m k = elim (Option-cases (get name m.engine.queues)) [
    | inl gone ↦ rw (gone, try_rounds) k
    | inr (q, h) ↦
        let moved : Manager = record m { engine = advance name q m.engine } in
        let later = try_rounds-IsIndexed n ids rounds moved k in
        elim (Option-cases (nth ids (q.rr_index % n))) [
          | inl out ↦ rw (h, try_rounds) (rw out later)
          | inr (id, at) ↦ elim (Option-cases (get id m.consumers)) [
            | inl gone ↦ rw (h, try_rounds) (rw (at, gone) later)
            | inr (c, found) ↦ elim (Bool-cases (eligible c)) [
              | inl fit ↦
                  rw (h, try_rounds)
                    (rw (at, found) (rw fit (hand_to-IsIndexed id c moved found k)))
              | inr busy ↦ rw (h, try_rounds) (rw (at, found) (rw busy later))
            ]
          ]
        ]
  ]

  pub try_reserve-IsIndexed :
      (m : Manager) → IsIndexedManager m → IsIndexedManager (try_reserve now name m).0
  unfolding try_reserve
  try_reserve-IsIndexed m k = elim (Option-cases (get name m.engine.queues)) [
    | inl gone ↦ rw (gone, try_reserve) k
    | inr (q, h) ↦
        rw (h, try_reserve)
          (elim q.consumer_ids
            as (λ ids.
              IsIndexedManager
                (elim ids as (λ _. Manager × Option (Consumer × Message)) [
                  | [] ↦ (m, none)
                  | id ∷ rest ↦
                      try_rounds now (length q.consumer_ids) name q.consumer_ids
                        (length q.consumer_ids) m
                ]).0) [
                  | [] ↦ k
                  | id ∷ rest ↦
                      try_rounds-IsIndexed (length q.consumer_ids) q.consumer_ids
                        (length q.consumer_ids) m k
                ])
  ]

-- What `cancel` leaves of the registry.
pub registry-cancel :
    (now : ℕ) (id : Str) (recover : Bool) (m : Manager) (c : Consumer)
    → get id m.consumers ≡ some c
    → ((cancel now id recover m).0.consumers ≡ remove id m.consumers)
      × ((cancel now id recover m).0.by_connection ≡ leave id c.connection_id m.by_connection)
unfolding cancel
registry-cancel now id recover m c there = elim (Bool-cases recover) [
  | inl yes_do ↦ rw (there, cancel) (rw yes_do (refl, refl))
  | inr stay ↦ rw (there, cancel) (rw stay (refl, refl))
]

pub cancel_unknown :
    (now : ℕ) (id : Str) (recover : Bool) (m : Manager)
    → get id m.consumers ≡ none
    → (cancel now id recover m).0 ≡ m
unfolding cancel
cancel_unknown now id recover m gone = rw (gone, cancel) refl

pub cancel-IsIndexed :
    (now : ℕ) (id : Str) (recover : Bool) (m : Manager)
    → IsIndexedManager m
    → IsIndexedManager (cancel now id recover m).0
cancel-IsIndexed now id recover m k = elim (Option-cases (get id m.consumers)) [
  | inl gone ↦ rw (cancel_unknown now id recover m gone) k
  | inr (c, there) ↦
      let (consumers, by_connection) = registry-cancel now id recover m c there in
      rw (consumers, by_connection) (IsIndexed-leave id c m.consumers m.by_connection k)
]
