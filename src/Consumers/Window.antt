-- ===== src/Consumers/Window.antt =====
-- Whom `try_reserve` delivers to.
use one_open_broker.Prelude.{
  ℕ, zero, suc, ◌+◌, ◌%◌, ◌<◌, ◌≡◌, ◌∙◌, refl, sym, ap, true, false, Option, none, some, List, [],
  ◌∷◌, Str, str_eq_iff, str_eq_refl, arith, length, Bool-cases, Option-cases, inl, inr,
}
use one_open_broker.Dict.{get, put, get-put, contains}
use one_open_broker.Core.Message.{Message}
use one_open_broker.Core.Qos.{QoS, can_deliver, on_deliver}
use one_open_broker.Core.Entries.{ReadyEntry}
use one_open_broker.Queue.State.{DurableQueue, Engine, store}
use one_open_broker.Queue.Delivery.{next_ready, deliver, reserve}
use one_open_broker.Consumers.State.{Consumer, Manager, touch}
use one_open_broker.Consumers.Delivery.{
  nth, advance, eligible, hand_to, try_rounds, try_reserve, waiting, waiting_in,
}

nth-contains : (ids : List Str) (i : ℕ) (x : Str) → nth ids i ≡ some x → contains x ids ≡ true
unfolding nth contains
nth-contains [] i x h = cc
nth-contains (y ∷ ys) zero x h = ground (arith, str_eq_iff y x)
nth-contains (y ∷ ys) (suc i) x h = ground (arith, nth-contains ys i x h)

-- What a delivery from the queue named `name` does: the consumer was in the list, connected, not
-- cancelled and had room in its window; its count of unacknowledged deliveries has grown by one, and
-- a message has left the ready heap.
pub record Handed (now : ℕ) (name : Str) (ids : List Str) (m m' : Manager) (c : Consumer)
    : Type 0 where
  pub id : Str
  pub before : Consumer
  pub listed : contains id ids ≡ true
  pub found : get id m.consumers ≡ some before
  pub active : before.cancelled ≡ false
  pub room : can_deliver before.qos ≡ true
  pub counted : c.qos.unacked_count ≡ before.qos.unacked_count + 1
  pub limit : c.qos.prefetch_count ≡ before.qos.prefetch_count
  pub stored : get id m'.consumers ≡ some c
  pub fewer : waiting name m' < waiting name m

length-next_ready :
    (q : DurableQueue) (xs : List ReadyEntry) (found : ReadyEntry × Message)
    → (next_ready q xs).0 ≡ some found
    → length (next_ready q xs).1 < length xs
unfolding next_ready
length-next_ready q [] found h = cc
length-next_ready q (x ∷ xs) found h = ground (arith, length-next_ready q xs found)

waiting_in-store :
    (name : Str) (q : DurableQueue) (e : Engine)
    → waiting_in (get name (store name q e).queues) ≡ length q.ready
unfolding store
waiting_in-store name q e = ground (arith, get-put name name q e.queues, str_eq_refl name)

deliver-fewer :
    (now : ℕ) (name consumer_id : Str) (q : DurableQueue) (e : Engine)
    (x : Option (ReadyEntry × Message) × List ReadyEntry) (message : Message)
    → (deliver now name consumer_id q e x).1 ≡ some message
    → waiting_in (get name (deliver now name consumer_id q e x).0.queues) ≡ length x.1
unfolding deliver store
deliver-fewer now name consumer_id q e (none, rest) message h = cc
deliver-fewer now name consumer_id q e (some (x, m), rest) message h =
    rw (get-put, str_eq_refl) refl

deliver-some :
    (now : ℕ) (name consumer_id : Str) (q : DurableQueue) (e : Engine)
    (x : Option (ReadyEntry × Message) × List ReadyEntry) (message : Message)
    → (deliver now name consumer_id q e x).1 ≡ some message
    → (found : ReadyEntry × Message) × (x.0 ≡ some found)
unfolding deliver store
deliver-some now name consumer_id q e (none, rest) message h = cc
deliver-some now name consumer_id q e (some found, rest) message h = (found, refl)

-- A `reserve` that returns a message takes at least one entry off the ready heap.
pub reserve-fewer :
    (now : ℕ) (name consumer_id : Str) (e : Engine) (message : Message)
    → (reserve now name consumer_id e).1 ≡ some message
    → waiting_in (get name (reserve now name consumer_id e).0.queues)
      < waiting_in (get name e.queues)
unfolding reserve
reserve-fewer now name consumer_id e message h = elim (Option-cases (get name e.queues)) [
  | inl n ↦ absurd (ground arith)
  | inr (q, k) ↦
      let given : (deliver now name consumer_id q e (next_ready q q.ready)).1 ≡ some message =
        ground arith in
      let (found, e0) =
        deliver-some now name consumer_id q e (next_ready q q.ready) message given in
      let rest = deliver-fewer now name consumer_id q e (next_ready q q.ready) message given in
      let least = length-next_ready q q.ready found e0 in
      rw (k, reserve) (omega (arith, rest, least))
]

module _ (now : ℕ) (name : Str) (ids : List Str) where
  hand_to-none :
      (id : Str) (before : Consumer) (m : Manager)
      → (reserve now name id m.engine).1 ≡ none
      → (hand_to now name id before m).1 ≡ none
  unfolding hand_to
  hand_to-none id before m n = rw (n, hand_to) refl

  hand_to-some :
      (id : Str) (before : Consumer) (m : Manager) (message : Message)
      → (reserve now name id m.engine).1 ≡ some message
      → hand_to now name id before m ≡ (
        record m {
          engine = (reserve now name id m.engine).0;
          consumers = put id (touch now (λ (x : QoS). (on_deliver x).0) before) m.consumers;
        },
        some (touch now (λ (x : QoS). (on_deliver x).0) before, message),
      )
  unfolding hand_to
  hand_to-some id before m message k = rw (k, hand_to) refl

  hand_to-Handed :
      (id : Str) (before : Consumer) (m m' : Manager) (c : Consumer) (message : Message)
      → contains id ids ≡ true
      → get id m.consumers ≡ some before
      → eligible before ≡ true
      → hand_to now name id before m ≡ (m', some (c, message))
      → Handed now name ids m m' c
  unfolding eligible touch on_deliver
  hand_to-Handed id before m m' c message listed found fit h =
      elim (Option-cases (reserve now name id m.engine).1) [
        | inl n ↦ absurd (
            cc (
              hand_to-none id before m n,
              ap (λ (x : Manager × Option (Consumer × Message)). x.1) h,
            ))
        | inr (msg, k) ↦
            let same = sym h ∙ hand_to-some id before m msg k in
            let room : can_deliver before.qos ≡ true = ground arith in
            let counts : (on_deliver before.qos).0
                ≡ record before.qos { unacked_count = before.qos.unacked_count + 1 } =
              (unfold on_deliver in rw room refl) in
            let taken : c ≡ touch now (λ (x : QoS). (on_deliver x).0) before = cc same in
            rw (ap (λ (x : Manager × Option (Consumer × Message)). x.0) same, taken)
              (record {
                id = id;
                before = before;
                listed = listed;
                found = found;
                active = ground arith;
                room = room;
                counted = ap (λ (x : QoS). x.unacked_count) counts;
                limit = ap (λ (x : QoS). x.prefetch_count) counts;
                stored = ground (
                  arith,
                  get-put id id (touch now (λ (x : QoS). (on_deliver x).0) before) m.consumers,
                  str_eq_refl id,
                );
                fewer = reserve-fewer now name id m.engine msg k;
              })
      ]

  -- Moving the index of the round robin on leaves all that matters for a delivery.
  Handed-advance :
      (q : DurableQueue) (m m' : Manager) (c : Consumer)
      → get name m.engine.queues ≡ some q
      → Handed now name ids (record m { engine = advance name q m.engine }) m' c
      → Handed now name ids m m' c
  unfolding advance
  Handed-advance q m m' c k g = record {
    id = g.id;
    before = g.before;
    listed = g.listed;
    found = g.found;
    active = g.active;
    room = g.room;
    counted = g.counted;
    limit = g.limit;
    stored = g.stored;
    fewer =
        ground
          (arith, g.fewer, waiting_in-store name (record q { rr_index = q.rr_index + 1 }) m.engine);
  }

  try_rounds-Handed :
      (n rounds : ℕ) (m m' : Manager) (c : Consumer) (message : Message)
      → try_rounds now n name ids rounds m ≡ (m', some (c, message))
      → Handed now name ids m m' c
  unfolding try_rounds
  try_rounds-Handed n zero m m' c message h =
      absurd (cc (ap (λ (x : Manager × Option (Consumer × Message)). x.1) h))
  try_rounds-Handed n (suc rounds) m m' c message h =
      elim (Option-cases (get name m.engine.queues)) [
        | inl gone ↦ absurd (ground arith)
        | inr (q, k) ↦
            let moved : Manager = record m { engine = advance name q m.engine } in
            let later : try_rounds now n name ids rounds moved ≡ (m', some (c, message))
                → Handed now name ids m m' c =
              λ step.
                Handed-advance q m m' c k (try_rounds-Handed n rounds moved m' c message step) in
            elim (Option-cases (nth ids (q.rr_index % n))) [
              | inl out ↦ later (ground arith)
              | inr (id, at) ↦ elim (Option-cases (get id m.consumers)) [
                | inl gone ↦ later (ground arith)
                | inr (before, found) ↦ elim (Bool-cases (eligible before)) [
                  | inr busy ↦ later (ground arith)
                  | inl fit ↦ Handed-advance q m m' c k (
                      hand_to-Handed id before moved m' c message
                        (nth-contains ids (q.rr_index % n) id at) found fit (ground arith))
                ]
              ]
            ]
      ]

-- `try_reserve` delivers only to a connected consumer of the queue that is not cancelled and has
-- room in its window; it counts the delivery for that consumer, and takes at least one entry off the
-- ready heap.
pub try_reserve-Handed :
    (now : ℕ) (name : Str) (q : DurableQueue) (m m' : Manager) (c : Consumer) (message : Message)
    → get name m.engine.queues ≡ some q
    → try_reserve now name m ≡ (m', some (c, message))
    → Handed now name q.consumer_ids m m' c
unfolding try_reserve
try_reserve-Handed now name q m m' c message k h =
    try_rounds-Handed now name q.consumer_ids (length q.consumer_ids) (length q.consumer_ids) m m' c
      message (ground arith)
