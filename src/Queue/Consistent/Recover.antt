-- ===== src/Queue/Consistent/Recover.antt =====
-- `recover_consumer` keeps the indexes consistent.
use mathlib.Core.Path.{subst}
use one_open_broker.Prelude.{
  ℕ, ◌+◌, ◌≤◌, ◌≡◌, refl, sym, Bool, true, some, List, [], ◌∷◌, map, Str, str_eq_iff, str_eq_refl,
  length, ◌==◌, All, arith, bit, Bool-cases, Option-cases, inl, inr,
}
use one_open_broker.Dict.{Dict, get, remove, has, has-remove, keys, count}
use one_open_broker.Core.Message.{Message, InflightRecord}
use one_open_broker.Queue.State.{DurableQueue, Engine}
use one_open_broker.Queue.Recover.{
  held_by, recover_one, recover_all, recover_queue, recover_from, recover_consumer,
}
use one_open_broker.Queue.Retry.{retry_or_dead}
use one_open_broker.Queue.Consistent.{IsConsistent, IsLoose, IsDeliveryKeyed}
use one_open_broker.Queue.Consistent.Places.{take_delivery-IsLoose}
use one_open_broker.Queue.Consistent.Settle.{not_gone}
use one_open_broker.Queue.Consistent.Retry.{retry_or_dead-IsConsistent}
use one_open_broker.Queue.Consistent.Inflight.{inflight_of, inflight_of-retry_or_dead}

-- A delivery is taken out of flight, and its message is retried or dead.
module _ (now : ℕ) (name id : Str) (q : DurableQueue) (m : Message) (persist : Bool) (e : Engine)
    (c : IsConsistent e) (h : get name e.queues ≡ some q) (there : has id q.inflight ≡ true)
    (found : get id q.messages ≡ some m) where
  pub taken_back-IsConsistent :
      IsConsistent
        (retry_or_dead now name (record q { inflight = remove id q.inflight }) m persist e)
  taken_back-IsConsistent =
      let taken : DurableQueue = record q { inflight = remove id q.inflight } in
      let (same_id, placed) = (c.tracked name q h).keyed.messages id m found in
      retry_or_dead-IsConsistent now name q taken m persist e c h (λ j. refl)
        (subst (λ k. IsLoose k name taken) (sym same_id)
          (take_delivery-IsLoose id (c.tracked name q h) there))
        placed

abbrev record_ids : List InflightRecord → List Str
record_ids = map (λ (r : InflightRecord). r.message_id)

-- The deliveries still to be taken back are in flight, and differ.
abbrev Pending : Str → List InflightRecord → Engine → Type 0
Pending name rs e = (j : Str) → count j (record_ids rs) ≤ bit (has j (inflight_of name e))

recover_one-keeps :
    (now : ℕ) (name : Str) (r : InflightRecord) (rs : List InflightRecord) (persist : Bool)
    (e : Engine)
    → IsConsistent e
    → Pending name (r ∷ rs) e
    → IsConsistent (recover_one now name r persist e).0
      × Pending name rs (recover_one now name r persist e).0
unfolding recover_one count
recover_one-keeps now name r rs persist e c p = elim (Option-cases (get name e.queues)) [
  | inl h ↦ rw (h, recover_one) (c, λ j. omega (arith, p j))
  | inr (q, h) ↦
      let there : has r.message_id q.inflight ≡ true =
        ground (arith, p r.message_id, str_eq_refl r.message_id, h) in
      elim (Option-cases (get r.message_id q.messages)) [
        | inl gone ↦ absurd (not_gone r.message_id q (c.tracked name q h) there gone)
        | inr (m, found) ↦
            rw (h, found, recover_one)
              (
                taken_back-IsConsistent now name r.message_id q m persist e c h there found,
                λ j.
                    rw
                      (inflight_of-retry_or_dead now name
                        (record q { inflight = remove r.message_id q.inflight }) m persist e
                        (c.tracked name q h).keyed.spec)
                      (ground (
                        arith,
                        p j,
                        p r.message_id,
                        str_eq_refl r.message_id,
                        has-remove r.message_id j q.inflight,
                        str_eq_iff r.message_id j,
                        h,
                      )),
              )
      ]
]

recover_all-IsConsistent :
    (now : ℕ) (name : Str) (rs : List InflightRecord) (persist : Bool) (e : Engine)
    → IsConsistent e
    → Pending name rs e
    → IsConsistent (recover_all now name rs persist e).0
unfolding recover_all
recover_all-IsConsistent now name [] persist e c p = c
recover_all-IsConsistent now name (r ∷ rs) persist e c p =
    let (c', p') = recover_one-keeps now name r rs persist e c p in
    recover_all-IsConsistent now name rs persist _ c' p'

-- What is taken back was in flight, and nothing of it twice.
count-held_by :
    (consumer_id j : Str) (d : Dict InflightRecord)
    → All IsDeliveryKeyed d
    → count j (record_ids (held_by consumer_id d)) ≤ count j (keys d)
unfolding held_by count keys
count-held_by consumer_id j [] k = omega arith
count-held_by consumer_id j ((id, r) ∷ d) k = ground (arith, count-held_by consumer_id j d k.1, k.0)

recover_queue-IsConsistent :
    (now : ℕ) (consumer_id name : Str) (persist : Bool) (e : Engine)
    → IsConsistent e
    → IsConsistent (recover_queue now consumer_id name persist e).0
unfolding recover_queue
recover_queue-IsConsistent now consumer_id name persist e c =
    elim (Option-cases (get name e.queues)) [
      | inl h ↦ rw (h, recover_queue) c
      | inr (q, h) ↦
          let (keyed, unique) = (c.tracked name q h).keyed.deliveries in
          rw (h, recover_queue)
            (recover_all-IsConsistent now name (held_by consumer_id q.inflight) persist e c
              (λ j. rw h (omega (arith, count-held_by consumer_id j q.inflight keyed, unique j))))
    ]

recover_from-IsConsistent :
    (size now : ℕ) (consumer_id : Str) (names : List Str) (n : ℕ) (persist : Bool) (e : Engine)
    → IsConsistent e
    → IsConsistent (recover_from size now consumer_id names n persist e).0
unfolding recover_from
recover_from-IsConsistent size now consumer_id [] n persist e c = c
recover_from-IsConsistent size now consumer_id (name ∷ names) n persist e c =
    let (e', k) = recover_queue now consumer_id name persist e in
    elim (Bool-cases (length e.queues == size)) [
      | inl same ↦ rw same (
          recover_from-IsConsistent size now consumer_id names (n + k) persist e'
            (recover_queue-IsConsistent now consumer_id name persist e c))
      | inr changed ↦ rw changed c
    ]

-- Giving back the deliveries of a consumer keeps the indexes consistent, also when it raises.
pub recover_consumer-IsConsistent :
    (now : ℕ) (consumer_id : Str) (persist : Bool) (e : Engine)
    → IsConsistent e
    → IsConsistent (recover_consumer now consumer_id persist e).0
unfolding recover_consumer
recover_consumer-IsConsistent now consumer_id persist e c =
    recover_from-IsConsistent (length e.queues) now consumer_id (keys e.queues) 0 persist e c
