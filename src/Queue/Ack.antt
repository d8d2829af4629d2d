-- ===== src/Queue/Ack.antt =====
-- What `ack` answers and does.
use one_open_broker.Prelude.{
  ℕ, ◌≤◌, ◌<◌, ◌≡◌, ◌≢◌, ◌↔◌, refl, Bool, true, false, none, some, List, [], ◌∷◌, ◌++◌, Str, str_eq,
  str_eq_iff, str_eq_refl, arith, if◌then◌else◌, length, is_some, Bool-cases, Option-cases, inl,
  inr,
}
use one_open_broker.Dict.{get, contains, add, get-remove}
use one_open_broker.Core.Results.{AckResult}
use one_open_broker.Queue.State.{DurableQueue, Engine, store, log}
use one_open_broker.Queue.Delivery.{trim_acks, remember_ack, settle, ack, inflight_consumer}
use one_open_broker.Queue.Consistent.{IsConsistent, stores}
use one_open_broker.Queue.Consistent.Settle.{ack-IsConsistent}

-- `ack` answers OK exactly for a message that is in flight and was not acknowledged recently.
pub ack_ok_iff :
    (id : Str) (persist : Bool) (e : Engine)
    → ((ack id persist e).1 ≡ AckResult.ok)
      ↔ ((contains id e.recent_acks ≡ false) × (is_some (inflight_consumer id e) ≡ true))
unfolding ack inflight_consumer
ack_ok_iff id persist e = (λ h. ground arith, λ h. ground arith)

-- An answer other than OK leaves the engine as it was.
pub ack_refused :
    (id : Str) (persist : Bool) (e : Engine)
    → (ack id persist e).1 ≢ AckResult.ok
    → (ack id persist e).0 ≡ e
unfolding ack
ack_refused id persist e n = ground arith

-- What OK means: the delivery was found and settled.
ack_ok :
    (id : Str) (persist : Bool) (e : Engine)
    → (ack id persist e).1 ≡ AckResult.ok
    → (name : Str) × (q : DurableQueue) × (contains id e.recent_acks ≡ false)
      × (get name e.queues ≡ some q)
      × ((ack id persist e).0 ≡ settle id name q persist e)
unfolding ack
ack_ok id persist e h = elim (Bool-cases (contains id e.recent_acks)) [
  | inl recent ↦ absurd (ground arith)
  | inr new ↦ elim (Option-cases (get id e.by_id)) [
    | inl n ↦ absurd (ground arith)
    | inr (name, n) ↦ elim (Option-cases (get name e.queues)) [
      | inl k ↦ absurd (ground arith)
      | inr (q, k) ↦ elim (Option-cases (get id q.inflight)) [
        | inl r ↦ absurd (ground arith)
        | inr (r, there) ↦ (name, q, new, k, rw (new, n, ack) (rw k (rw there refl)))
      ]
    ]
  ]
]

by_id-settle :
    (id name : Str) (q : DurableQueue) (persist : Bool) (e : Engine) (j : Str)
    → get j (settle id name q persist e).by_id ≡ (if str_eq id j then none else get j e.by_id)
unfolding settle remember_ack store log
by_id-settle id name q true e j = get-remove id j e.by_id
by_id-settle id name q false e j = get-remove id j e.by_id

acks-settle :
    (id name : Str) (q : DurableQueue) (persist : Bool) (e : Engine)
    → (settle id name q persist e).recent_acks
      ≡ trim_acks e.settings.recent_ack_limit (add id e.recent_acks)
unfolding settle remember_ack store log
acks-settle id name q true e = refl
acks-settle id name q false e = refl

length-trim_acks-le : (limit : ℕ) (xs : List Str) → length (trim_acks limit xs) ≤ limit
unfolding trim_acks
length-trim_acks-le limit [] = omega arith
length-trim_acks-le limit (x ∷ xs) = ground (arith, length-trim_acks-le limit xs)

contains-append_last : (id : Str) (xs : List Str) → contains id (xs ++ id ∷ []) ≡ true
unfolding contains
contains-append_last id [] = ground (arith, str_eq_refl id)
contains-append_last id (x ∷ xs) = ground (arith, contains-append_last id xs)

-- The newest acknowledgement is never the one that is dropped.
contains-trim_acks :
    (limit : ℕ) (id : Str) (xs : List Str)
    → 0 < limit
    → contains id (trim_acks limit (xs ++ id ∷ [])) ≡ true
unfolding trim_acks contains
contains-trim_acks limit id [] h = ground (arith, str_eq_refl id)
contains-trim_acks limit id (x ∷ xs) h =
    ground (arith, contains-trim_acks limit id xs, contains-append_last id xs)

-- After OK the message is in no queue, every other message is where it was, and the window of
-- recent acknowledgements is within its limit.
pub ack_settles :
    (id : Str) (persist : Bool) (e : Engine)
    → IsConsistent e
    → (ack id persist e).1 ≡ AckResult.ok
    → ((name : Str) → stores name id (ack id persist e).0.queues ≡ false)
      × ((j : Str) → j ≢ id → get j (ack id persist e).0.by_id ≡ get j e.by_id)
      × (length (ack id persist e).0.recent_acks ≤ e.settings.recent_ack_limit)
ack_settles id persist e c h =
    let (name, q, new, k, same) = ack_ok id persist e h in
    let c' = ack-IsConsistent id persist e c in
    (
      λ n. ground (arith, c'.owned n id, by_id-settle id name q persist e id, str_eq_refl id, same),
      λ j d. ground (arith, by_id-settle id name q persist e j, str_eq_iff id j, same),
      rw (same, acks-settle) (length-trim_acks-le _ _),
    )

-- A message that was acknowledged recently is told so, wherever it is now.
ack_known :
    (id : Str) (persist : Bool) (e : Engine)
    → contains id e.recent_acks ≡ true
    → ack id persist e ≡ (e, AckResult.already_acked)
unfolding ack
ack_known id persist e known = rw (known, ack) refl

-- With room for one acknowledgement, a second `ack` of the same message is told ALREADY_ACKED and
-- changes nothing.
pub ack_twice :
    (id : Str) (persist : Bool) (e : Engine)
    → 0 < e.settings.recent_ack_limit
    → (ack id persist e).1 ≡ AckResult.ok
    → ack id persist (ack id persist e).0 ≡ ((ack id persist e).0, AckResult.already_acked)
ack_twice id persist e room h =
    let (name, q, new, k, same) = ack_ok id persist e h in
    let known : contains id (ack id persist e).0.recent_acks ≡ true =
      rw (same, acks-settle)
        (unfold add in
          rw new (contains-trim_acks e.settings.recent_ack_limit id e.recent_acks room)) in
    ack_known id persist (ack id persist e).0 known
