-- ===== src/Consumers/Turn.antt =====
-- The round robin finds somebody: while a message waits and a listed consumer can take it, one of the
-- consumers is given a message, and the round goes on behind it.
use one_open_broker.Prelude.{
  ℕ, zero, suc, ◌+◌, ◌-◌, ◌%◌, ◌<◌, ◌≡◌, ◌≢◌, ◌∙◌, refl, sym, ap, true, false, ◌||◌, Option, none,
  some, List, [], ◌∷◌, Str, str_eq, str_eq_iff, str_eq_refl, arith, length, Bool-cases,
  Option-cases, List-cases, inl, inr,
}
use native.Mathlib.Nat.{mod-lt, add-mod-mod, mod-add-mod, mod-eq_of_lt, add-mod_right}
use one_open_broker.Dict.{get, get-put, has, contains, count, has-is_some}
use one_open_broker.Core.Message.{Message}
use one_open_broker.Core.Entries.{ReadyEntry}
use one_open_broker.Queue.State.{DurableQueue, Engine, store, ready_ids}
use one_open_broker.Queue.Delivery.{next_ready, deliver, reserve}
use one_open_broker.Queue.Consistent.{IsTracked, IsConsistent}
use one_open_broker.Consumers.State.{Consumer, Manager}
use one_open_broker.Consumers.Rotation.{Turned, try_reserve-Turned}
use one_open_broker.Consumers.Delivery.{nth, advance, eligible, hand_to, try_rounds, try_reserve}

-- How many steps from the index `r` on the place `j` has its turn.
abbrev wait_for : ℕ → ℕ → ℕ → ℕ
wait_for r j n = (j + (n - r % n)) % n

turn_comes : (r j n : ℕ) → j < n → (r + wait_for r j n) % n ≡ j
turn_comes r j n less =
    let pos : 0 < n = omega (arith, less) in
    let below = mod-lt r pos in
    add-mod-mod r (j + (n - r % n)) n
    ∙ sym (mod-add-mod r n (j + (n - r % n)))
    ∙ ap (λ (k : ℕ). k % n) (omega (arith, below))
    ∙ add-mod_right j n
    ∙ mod-eq_of_lt less

next_ready-turn :
    (q : DurableQueue) (i : ℕ) (xs : List ReadyEntry)
    → next_ready (record q { rr_index = i }) xs ≡ next_ready q xs
unfolding next_ready
next_ready-turn q i [] = refl
next_ready-turn q i (x ∷ xs) = elim (Option-cases (get x.id q.messages)) [
  | inl gone ↦ rw (gone, next_ready) (next_ready-turn q i xs)
  | inr (m, k) ↦ elim (Bool-cases (has x.id q.inflight || contains x.id q.delayed_ids)) [
    | inl out ↦ rw (k, next_ready) (rw out (next_ready-turn q i xs))
    | inr here ↦ rw (k, next_ready) (rw here refl)
  ]
]

-- In a queue whose indexes are consistent, the first entry of the ready heap can be delivered.
next_ready-first :
    (name : Str) (q : DurableQueue) (x : ReadyEntry) (xs : List ReadyEntry)
    → IsTracked name q
    → q.ready ≡ x ∷ xs
    → (m : Message) × ((next_ready q q.ready).0 ≡ some (x, m))
unfolding next_ready count
next_ready-first name q x xs t first =
    let waits : 0 < count x.id (ready_ids q) = rw first (ground (arith, str_eq_refl x.id)) in
    let free : (has x.id q.inflight || contains x.id q.delayed_ids) ≡ false =
      ground (arith, waits, t.once x.id) in
    elim (Option-cases (get x.id q.messages)) [
      | inl gone ↦ absurd (ground (arith, waits, t.once x.id, has-is_some x.id q.messages, gone))
      | inr (m, k) ↦ (m, rw (first, next_ready) (rw (k) (rw free refl)))
    ]

-- The queue can deliver: its heap leads to an entry with its message.
abbrev Delivers : DurableQueue → Type 0
Delivers q = (found : ReadyEntry × Message) × ((next_ready q q.ready).0 ≡ some found)

deliver-one :
    (now : ℕ) (name id : Str) (q : DurableQueue) (e : Engine)
    (x : Option (ReadyEntry × Message) × List ReadyEntry) (found : ReadyEntry × Message)
    → x.0 ≡ some found
    → (deliver now name id q e x).1 ≡ some found.1
unfolding deliver
deliver-one now name id q e (none, rest) found h = cc
deliver-one now name id q e (some (y, m), rest) found h = ground arith

module _ (now : ℕ) (name : Str) (ids : List Str) where
  hand_to-one :
      (id : Str) (c : Consumer) (m : Manager) (q : DurableQueue)
      → get name m.engine.queues ≡ some q
      → Delivers q
      → (hand_to now name id c m).1 ≢ none
  unfolding hand_to reserve
  hand_to-one id c m q k (found, h) =
      let given : (reserve now name id m.engine).1 ≡ some found.1 =
        rw (k, reserve) (deliver-one now name id q m.engine (next_ready q q.ready) found h) in
      rw (given, hand_to) (λ e. cc)

  Delivers-advance :
      (q : DurableQueue) → Delivers q → Delivers (record q { rr_index = q.rr_index + 1 })
  Delivers-advance q (found, h) = (
    found,
    ap (λ (x : Option (ReadyEntry × Message) × List ReadyEntry). x.0)
          (next_ready-turn q (q.rr_index + 1) q.ready)
        ∙ h,
  )

  get-advance :
      (q : DurableQueue) (e : Engine)
      → get name (advance name q e).queues ≡ some (record q { rr_index = q.rr_index + 1 })
  unfolding advance store
  get-advance q e = rw (get-put, str_eq_refl) refl

  -- With the turn of an eligible consumer among the rounds that are left, the loop delivers.
  try_rounds-finds :
      (n rounds i j : ℕ) (id : Str) (c : Consumer) (m : Manager) (q : DurableQueue)
      → get name m.engine.queues ≡ some q
      → Delivers q
      → nth ids j ≡ some id
      → get id m.consumers ≡ some c
      → eligible c ≡ true
      → (q.rr_index + i) % n ≡ j
      → i < rounds
      → (try_rounds now n name ids rounds m).1 ≢ none
  unfolding try_rounds
  try_rounds-finds n zero i j id c m q k d at found fit turn less = absurd (omega (arith, less))
  try_rounds-finds n (suc rounds) zero j id c m q k d at found fit turn less =
      let moved : Manager = record m { engine = advance name q m.engine } in
      let here : nth ids (q.rr_index % n) ≡ some id =
        ap (λ (x : ℕ). nth ids (x % n)) (omega arith) ∙ ap (nth ids) turn ∙ at in
      rw (k, try_rounds)
        (rw here (
          rw found
            (rw fit (hand_to-one id c moved _ (get-advance q m.engine) (Delivers-advance q d)))))
  try_rounds-finds n (suc rounds) (suc i) j id c m q k d at found fit turn less =
      let moved : Manager = record m { engine = advance name q m.engine } in
      let later : (try_rounds now n name ids rounds moved).1 ≢ none =
        try_rounds-finds n rounds i j id c moved _ (get-advance q m.engine) (Delivers-advance q d)
          at found fit (ap (λ (x : ℕ). x % n) (omega arith) ∙ turn) (omega (arith, less)) in
      elim (Option-cases (nth ids (q.rr_index % n))) [
        | inl out ↦ rw (k, try_rounds) (rw out later)
        | inr (id', there) ↦ elim (Option-cases (get id' m.consumers)) [
          | inl gone ↦ rw (k, try_rounds) (rw there (rw gone later))
          | inr (c', known) ↦ elim (Bool-cases (eligible c')) [
            | inr busy ↦ rw (k, try_rounds) (rw there (rw known (rw busy later)))
            | inl fits ↦
                rw (k, try_rounds)
                  (rw there (
                    rw known (
                      rw fits (
                        hand_to-one id' c' moved _ (get-advance q m.engine)
                          (Delivers-advance q d)))))
          ]
        ]
      ]

nth-of-contains :
    (id : Str) (ids : List Str)
    → contains id ids ≡ true
    → (j : ℕ) × (j < length ids) × (nth ids j ≡ some id)
unfolding contains nth
nth-of-contains id [] h = cc
nth-of-contains id (y ∷ ys) h = elim (Bool-cases (str_eq y id)) [
  | inl same ↦ (0, omega arith, ap some ((str_eq_iff y id).0 same))
  | inr other ↦
      let (j, less, at) = nth-of-contains id ys (ground (arith, h, other)) in
      (suc j, omega (arith, less), at)
]

try_reserve_delivers :
    (now : ℕ) (name id : Str) (m : Manager) (q : DurableQueue) (c : Consumer)
    → IsConsistent m.engine
    → get name m.engine.queues ≡ some q
    → q.ready ≢ []
    → contains id q.consumer_ids ≡ true
    → get id m.consumers ≡ some c
    → eligible c ≡ true
    → (try_reserve now name m).1 ≢ none
unfolding try_reserve contains
try_reserve_delivers now name id m q c consistent k some_wait listed found fit =
    let (j, less, at) = nth-of-contains id q.consumer_ids listed in
    let n = length q.consumer_ids in
    elim (List-cases q.ready) [
      | inl nothing ↦ absurd (some_wait nothing)
      | inr (x, xs, first) ↦
          let (message, ready) = next_ready-first name q x xs (consistent.tracked name q k) first in
          let delivers : (try_rounds now n name q.consumer_ids n m).1 ≢ none =
            try_rounds-finds now name q.consumer_ids n n (wait_for q.rr_index j n) j id c m q k
              ((x, message), ready) at found fit (turn_comes q.rr_index j n less)
              (mod-lt (j + (n - q.rr_index % n)) (omega (arith, less))) in
          rw (k, try_reserve)
            ((elim q.consumer_ids
                as (λ ids.
                  contains id ids ≡ true
                  → (elim ids as (λ _. Manager × Option (Consumer × Message)) [
                    | [] ↦ (m, none)
                    | y ∷ ys ↦ try_rounds now n name q.consumer_ids n m
                  ]).1
                    ≢ none) [ [] ↦ λ l. cc | y ∷ ys ↦ λ l. delivers ])
              listed)
    ]

-- In a consistent engine, while a message waits in a queue, and a connected consumer that the queue
-- lists is not cancelled and has room in its window, try_reserve delivers a message to some consumer.
-- The index of the round robin moves on with it, by at most one round, and stands just behind the
-- place of that consumer in the list.
pub try_reserve_finds :
    (now : ℕ) (name id : Str) (m : Manager) (q : DurableQueue) (c : Consumer)
    → IsConsistent m.engine
    → get name m.engine.queues ≡ some q
    → q.ready ≢ []
    → contains id q.consumer_ids ≡ true
    → get id m.consumers ≡ some c
    → eligible c ≡ true
    → (d : Consumer × Message) × ((try_reserve now name m).1 ≡ some d)
      × Turned name q.consumer_ids q.rr_index (length q.consumer_ids) (try_reserve now name m).0 d.0
try_reserve_finds now name id m q c consistent k some_wait listed found fit =
    elim (Option-cases (try_reserve now name m).1) [
      | inl nothing ↦
          absurd
            (try_reserve_delivers now name id m q c consistent k some_wait listed found fit nothing)
      | inr (d, given) ↦ (d, given, try_reserve-Turned now name m q d k given)
    ]
