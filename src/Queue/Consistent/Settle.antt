-- ===== src/Queue/Consistent/Settle.antt =====
-- `ack` and `nack` keep the indexes consistent.
use mathlib.Core.Path.{subst}
use one_open_broker.Prelude.{
  ℕ, ◌+◌, ◌≡◌, refl, sym, Bool, true, none, some, Str, arith, Bool-cases, Option-cases, inl, inr,
}
use one_open_broker.Dict.{get, remove, has, has-of-get, has-remove, has-is_some, contains}
use one_open_broker.Core.Message.{Message}
use one_open_broker.Queue.State.{DurableQueue, QueueStats, Engine, store, log, message_nack}
use one_open_broker.Queue.Delivery.{remember_ack, settle, ack, give_back, nack}
use one_open_broker.Queue.Consistent.{
  IsConsistent, IsTracked, IsLoose, log-IsConsistent, log-queues, if-IsConsistent,
}
use one_open_broker.Queue.Consistent.Store.{Consistent-drop}
use one_open_broker.Queue.Consistent.Places.{take_delivery-IsLoose, tracked_stored, IsLoose-bury}
use one_open_broker.Queue.Consistent.Retry.{retry_or_dead-IsConsistent, move_to_dlq-IsConsistent}

-- The counters are in no place.
pub IsLoose-stats :
    {id name : Str} {q : DurableQueue} (stats : QueueStats)
    → IsLoose id name q
    → IsLoose id name (record q { stats = stats })
IsLoose-stats stats l = record {
  keyed = record {
    spec = l.keyed.spec;
    messages = l.keyed.messages;
    deliveries = l.keyed.deliveries;
  };
  once = l.once;
}

module _ (id name : Str) (q : DurableQueue) (persist : Bool) (e : Engine) (c : IsConsistent e)
    (h : get name e.queues ≡ some q) (there : has id q.inflight ≡ true) where
  settle-IsConsistent : IsConsistent (settle id name q persist e)
  unfolding settle remember_ack store
  settle-IsConsistent = log-IsConsistent persist _ _ (
      Consistent-drop id q _ c h
        (IsLoose-bury id _ (take_delivery-IsLoose id (c.tracked name q h) there))
        (tracked_stored id (c.tracked name q h) there) (λ j. has-remove id j q.messages))

  give_back-IsConsistent :
      (now : ℕ) (m : Message) (requeue : Bool)
      → get id q.messages ≡ some m
      → IsConsistent
          (give_back now id name (record q { inflight = remove id q.inflight }) m requeue persist e)
  unfolding give_back
  give_back-IsConsistent now m requeue found =
      let (same_id, placed) = (c.tracked name q h).keyed.messages id m found in
      let queue : DurableQueue = record q {
        inflight = remove id q.inflight;
        stats = record q.stats { nacked = q.stats.nacked + 1 };
      } in
      let l : IsLoose m.id name queue =
        subst (λ k. IsLoose k name queue) (sym same_id)
          (IsLoose-stats _ (take_delivery-IsLoose id (c.tracked name q h) there)) in
      let entry = message_nack id name requeue in
      let c' = log-IsConsistent persist entry e c in
      let h' : get name (log persist entry e).queues ≡ some q = rw log-queues h in
      if-IsConsistent requeue _ _
        (retry_or_dead-IsConsistent now name q queue m persist _ c' h' (λ j. refl) l placed)
        (move_to_dlq-IsConsistent name q queue m persist _ c' h' (λ j. refl) l)

-- A delivery in flight has its message.
pub not_gone :
    {name : Str} (id : Str) (q : DurableQueue)
    → IsTracked name q
    → has id q.inflight ≡ true
    → get id q.messages ≡ none
    → ⊥
not_gone id q t there gone = ground (arith, tracked_stored id t there, has-is_some id q.messages)

-- `ack` keeps the indexes consistent, whatever it answers.
pub ack-IsConsistent :
    (id : Str) (persist : Bool) (e : Engine) → IsConsistent e → IsConsistent (ack id persist e).0
unfolding ack
ack-IsConsistent id persist e c = elim (Bool-cases (contains id e.recent_acks)) [
  | inl recent ↦ rw (recent, ack) c
  | inr new ↦ elim (Option-cases (get id e.by_id)) [
    | inl n ↦ rw (new, n, ack) c
    | inr (name, n) ↦
        rw (new, n, ack)
          (elim (Option-cases (get name e.queues)) [
            | inl h ↦ rw h c
            | inr (q, h) ↦ rw h (elim (Option-cases (get id q.inflight)) [
              | inl r ↦ rw r c
              | inr (r, there) ↦
                  rw there
                    (settle-IsConsistent id name q persist e c h (has-of-get id q.inflight there))
            ])
          ])
  ]
]

-- `nack` keeps the indexes consistent, whatever it answers, and with or without `requeue`.
pub nack-IsConsistent :
    (now : ℕ) (id : Str) (requeue persist : Bool) (e : Engine)
    → IsConsistent e
    → IsConsistent (nack now id requeue persist e).0
unfolding nack
nack-IsConsistent now id requeue persist e c = elim (Option-cases (get id e.by_id)) [
  | inl n ↦ rw (n, nack) c
  | inr (name, n) ↦
      rw (n, nack)
        (elim (Option-cases (get name e.queues)) [
          | inl h ↦ rw h c
          | inr (q, h) ↦ rw h (elim (Option-cases (get id q.inflight)) [
            | inl r ↦ rw r c
            | inr (r, there) ↦ rw there (elim (Option-cases (get id q.messages)) [
              | inl gone ↦
                  absurd (not_gone id q (c.tracked name q h) (has-of-get id q.inflight there) gone)
              | inr (m, found) ↦ rw found (
                  give_back-IsConsistent id name q persist e c h (has-of-get id q.inflight there)
                    now m requeue found)
            ])
          ])
        ])
]
