-- ===== src/Consumers/Rotation.antt =====
-- How the index of the round robin moves on with a delivery of `try_reserve`.
use one_open_broker.Prelude.{
  ℕ, zero, suc, ◌+◌, ◌-◌, ◌%◌, ◌<◌, ◌≤◌, ◌≡◌, ◌∙◌, refl, sym, ap, Option, none, some, List, [], ◌∷◌,
  Str, str_eq_refl, arith, length, Bool-cases, Option-cases, List-cases, inl, inr,
}
use one_open_broker.Dict.{get, put, get-put}
use one_open_broker.Core.Message.{Message}
use one_open_broker.Core.Entries.{ReadyEntry}
use one_open_broker.Core.Qos.{QoS, on_deliver}
use one_open_broker.Queue.State.{DurableQueue, Engine, store}
use one_open_broker.Queue.Delivery.{next_ready, deliver, reserve}
use one_open_broker.Consumers.State.{Consumer, Manager, touch}
use one_open_broker.Consumers.Delivery.{nth, advance, eligible, hand_to, try_rounds, try_reserve}

-- After a delivery to `c`, the index has moved on by at most one round, and stands just behind the place
-- of `c` in the list.
pub record Turned (name : Str) (ids : List Str) (start n : ℕ) (m' : Manager) (c : Consumer)
    : Type 0 where
  pub id : Str
  pub left : DurableQueue
  pub found : get name m'.engine.queues ≡ some left
  pub moved : start < left.rr_index
  pub near : left.rr_index ≤ start + n
  pub turn : nth ids ((left.rr_index - 1) % length ids) ≡ some id
  pub served : get id m'.consumers ≡ some c

deliver-turn :
    (now : ℕ) (name consumer_id : Str) (q : DurableQueue) (e : Engine)
    (x : Option (ReadyEntry × Message) × List ReadyEntry)
    → (left : DurableQueue) × (get name (deliver now name consumer_id q e x).0.queues ≡ some left)
      × (left.rr_index ≡ q.rr_index)
unfolding deliver store
deliver-turn now name consumer_id q e (none, rest) =
    (record q { ready = rest }, rw (get-put, str_eq_refl) refl, refl)
deliver-turn now name consumer_id q e (some (y, m), rest) = (
  record q {
    ready = rest;
    inflight =
        put y.id
          (record {
            message_id = y.id;
            queue = name;
            consumer_id = consumer_id;
            delivery_time = now;
            visibility_deadline = now + q.spec.visibility_timeout;
          })
          q.inflight;
    stats = record q.stats { delivered = q.stats.delivered + 1 };
  },
  rw (get-put, str_eq_refl) refl,
  refl,
)

reserve-turn :
    (now : ℕ) (name consumer_id : Str) (q : DurableQueue) (e : Engine)
    → get name e.queues ≡ some q
    → (left : DurableQueue) × (get name (reserve now name consumer_id e).0.queues ≡ some left)
      × (left.rr_index ≡ q.rr_index)
unfolding reserve
reserve-turn now name consumer_id q e k =
    rw (k, reserve) (deliver-turn now name consumer_id q e (next_ready q q.ready))

module _ (now : ℕ) (name : Str) (ids : List Str) where
  hand_to-Turned :
      (id : Str) (before : Consumer) (m : Manager) (q : DurableQueue) (d : Consumer × Message)
      (start n : ℕ)
      → get name m.engine.queues ≡ some q
      → q.rr_index ≡ suc start
      → 0 < n
      → nth ids (start % length ids) ≡ some id
      → (hand_to now name id before m).1 ≡ some d
      → Turned name ids start n (hand_to now name id before m).0 d.0
  unfolding hand_to
  hand_to-Turned id before m q d start n k index pos at given =
      let (left, found, same) = reserve-turn now name id q m.engine k in
      let here : nth ids ((left.rr_index - 1) % length ids) ≡ some id =
        ap (λ (i : ℕ). nth ids (i % length ids)) (omega (arith, same, index)) ∙ at in
      elim (Option-cases (reserve now name id m.engine).1) [
        | inl nothing ↦ absurd (cc (given, nothing))
        | inr (message, some_message) ↦
            let busy = touch now (λ (x : QoS). (on_deliver x).0) before in
            let is_busy : busy ≡ d.0 = ground (arith, given, some_message) in
            rw (some_message, hand_to)
              (record {
                id = id;
                left = left;
                found = found;
                moved = omega (arith, same, index);
                near = omega (arith, same, index, pos);
                turn = here;
                served = rw (get-put, str_eq_refl) (ap some is_busy);
              })
      ]

  try_rounds-Turned :
      (rounds : ℕ) (m : Manager) (q : DurableQueue) (d : Consumer × Message)
      → get name m.engine.queues ≡ some q
      → (try_rounds now (length ids) name ids rounds m).1 ≡ some d
      → Turned name ids q.rr_index rounds (try_rounds now (length ids) name ids rounds m).0 d.0
  unfolding try_rounds
  try_rounds-Turned zero m q d k given = absurd (cc given)
  try_rounds-Turned (suc rounds) m q d k given =
      let moved : Manager = record m { engine = advance name q m.engine } in
      let next : DurableQueue = record q { rr_index = q.rr_index + 1 } in
      let there : get name moved.engine.queues ≡ some next =
        unfold advance store in rw (get-put, str_eq_refl) refl in
      let rest = try_rounds now (length ids) name ids rounds moved in
      let later : rest.1 ≡ some d → Turned name ids q.rr_index (suc rounds) rest.0 d.0 = λ e.
        let t = try_rounds-Turned rounds moved next d there e in
        record {
          id = t.id;
          left = t.left;
          found = t.found;
          moved = omega (arith, t.moved);
          near = omega (arith, t.near);
          turn = t.turn;
          served = t.served;
        } in
      elim (Option-cases (nth ids (q.rr_index % length ids))) [
        | inl out ↦ rw (k, try_rounds) (rw out (later (ground (arith, given, k, out))))
        | inr (id, at) ↦ elim (Option-cases (get id m.consumers)) [
          | inl gone ↦
              rw (k, try_rounds) (rw at (rw gone (later (ground (arith, given, k, at, gone)))))
          | inr (c, known) ↦ elim (Bool-cases (eligible c)) [
            | inr busy ↦
                rw (k, try_rounds)
                  (rw at (rw known (rw busy (later (ground (arith, given, k, at, known, busy))))))
            | inl fits ↦
                rw (k, try_rounds)
                  (rw at (
                    rw known (
                      rw fits (
                        hand_to-Turned id c moved next d q.rr_index (suc rounds) there (omega arith)
                          (omega arith) at (ground (arith, given, k, at, known, fits))))))
          ]
        ]
      ]

pub try_reserve-Turned :
    (now : ℕ) (name : Str) (m : Manager) (q : DurableQueue) (d : Consumer × Message)
    → get name m.engine.queues ≡ some q
    → (try_reserve now name m).1 ≡ some d
    → Turned name q.consumer_ids q.rr_index (length q.consumer_ids) (try_reserve now name m).0 d.0
unfolding try_reserve
try_reserve-Turned now name m q d k given = elim (List-cases q.consumer_ids) [
  | inl nobody ↦ absurd (ground (arith, given, k, nobody))
  | inr (y, ys, listed) ↦
      let goes : try_reserve now name m
          ≡ try_rounds now (length q.consumer_ids) name q.consumer_ids (length q.consumer_ids) m =
        rw (k, try_reserve)
          (ap
            (λ (ids : List Str). elim ids as (λ _. Manager × Option (Consumer × Message)) [
              | [] ↦ (m, none)
              | z ∷ zs ↦
                  try_rounds now (length q.consumer_ids) name q.consumer_ids (length q.consumer_ids)
                    m
            ])
            listed) in
      rw goes (
        try_rounds-Turned now name q.consumer_ids (length q.consumer_ids) m q d k
          (ap (λ (x : Manager × Option (Consumer × Message)). x.1) (sym goes) ∙ given))
]
