-- ===== src/Queue/Destination.antt =====
-- Where a message goes that was given back: to its queue again, to the dead-letter queue, or away.
use one_open_broker.Prelude.{
  ℕ, ◌+◌, ◌≤◌, ◌≡◌, refl, Bool, true, false, Option, none, some, Str, str_eq_refl, arith,
  if◌then◌else◌, leb, ◌∙◌, sym, ap, bit,
}
use one_open_broker.Dict.{get, has, remove, get-put, get-remove}
use one_open_broker.Core.Names.{dlq_name, is_dlq}
use one_open_broker.Core.Message.{Message, InflightRecord}
use one_open_broker.Core.Results.{NackResult}
use one_open_broker.Core.Retry.{retry_delay}
use one_open_broker.Queue.State.{DurableQueue, Engine, store, log, message_nack}
use one_open_broker.Queue.Retry.{bury, dead_letter_to, move_to_dlq, delay_retry, retry_or_dead}
use one_open_broker.Queue.Delivery.{give_back, nack}
use one_open_broker.Queue.Consistent.{IsConsistent, stores, owns, places, log-by_id}
use one_open_broker.Queue.Consistent.Settle.{nack-IsConsistent}

-- The queue that stores a message after it was given back for good.
abbrev pub dead_place : DurableQueue → Option Str
dead_place q = if q.spec.dead_letter then some (dlq_name q.spec.name) else none

module _ (name : Str) (q : DurableQueue) (m : Message) (persist : Bool) (e : Engine) where
  by_id-dead_letter_to : (dest : Str) → get m.id (dead_letter_to dest m e).by_id ≡ some dest
  unfolding dead_letter_to store
  by_id-dead_letter_to dest = rw (get-put, str_eq_refl) refl

  by_id-bury : get m.id (bury name q m persist e).by_id ≡ none
  unfolding bury store
  by_id-bury = rw (log-by_id, get-remove, str_eq_refl) refl

module _ (name : Str) (q : DurableQueue) (m : Message) (persist : Bool) (e : Engine) where
  by_id-move_to_dlq : get m.id (move_to_dlq name q m persist e).by_id ≡ dead_place q
  unfolding move_to_dlq
  by_id-move_to_dlq = ground (
    arith,
    by_id-dead_letter_to name q m persist (bury name q m persist e) (dlq_name q.spec.name),
    by_id-bury name q m persist e,
  )

  by_id-delay_retry : (when : ℕ) → (delay_retry when name q m persist e).by_id ≡ e.by_id
  unfolding delay_retry store
  by_id-delay_retry when = rw log-by_id refl

-- The message stays where it is while it has attempts left.
pub by_id-retry_or_dead :
    (now : ℕ) (name : Str) (q : DurableQueue) (m : Message) (persist : Bool) (e : Engine)
    → get m.id (retry_or_dead now name q m persist e).by_id
      ≡ (if leb m.max_attempts (m.attempts + 1) then dead_place q else get m.id e.by_id)
unfolding retry_or_dead
by_id-retry_or_dead now name q m persist e = ground (
  arith,
  by_id-move_to_dlq name q (record m { attempts = m.attempts + 1 }) persist e,
  by_id-delay_retry name q (record m { attempts = m.attempts + 1 }) persist e
      (now + retry_delay (m.attempts + 1) e.settings.retry_backoff e.settings.retry_base_delay),
)

by_id-give_back :
    (now : ℕ) (id name : Str) (q : DurableQueue) (m : Message) (requeue persist : Bool) (e : Engine)
    → get m.id (give_back now id name q m requeue persist e).by_id ≡ (
        if requeue
        then (if leb m.max_attempts (m.attempts + 1) then dead_place q else get m.id e.by_id)
        else dead_place q)
unfolding give_back
by_id-give_back now id name q m requeue persist e =
    let queue : DurableQueue = record q {
      stats = record q.stats { nacked = q.stats.nacked + 1 };
    } in
    let logged = log persist (message_nack id name requeue) e in
    ground (
      arith,
      by_id-retry_or_dead now name queue m persist logged,
      by_id-move_to_dlq name queue m persist logged,
      log-by_id persist (message_nack id name requeue) e,
    )

-- `nack` of a message in flight gives it back.
nack_found :
    (now : ℕ) (id name : Str) (requeue persist : Bool) (q : DurableQueue) (r : InflightRecord)
    (m : Message) (e : Engine)
    → get id e.by_id ≡ some name
    → get name e.queues ≡ some q
    → get id q.inflight ≡ some r
    → get id q.messages ≡ some m
    → nack now id requeue persist e ≡ (
      give_back now id name (record q { inflight = remove id q.inflight }) m requeue persist e,
      NackResult.ok,
    )
unfolding nack
nack_found now id name requeue persist q r m e n h there found =
    rw (n, nack) (rw h (rw there (rw found refl)))

-- Where `nack` puts a message, by the name of a queue, if it stays in one.
abbrev pub place_after_nack : Str → Bool → DurableQueue → Message → Option Str
place_after_nack name requeue q m =
    let dead = if q.spec.dead_letter then some (dlq_name name) else none in
    if requeue then (if leb m.max_attempts (m.attempts + 1) then dead else some name) else dead

-- A delivery that `nack` gives back with `requeue` stays in its queue while its attempts are below
-- their maximum. Otherwise its message goes to the dead-letter queue, if its queue has one, and to
-- no queue at all if it has none. The queue that it goes to stores it, no other queue does, and there
-- it stands in exactly one of the ready heap, the deliveries in flight and the delayed ids, and in
-- none of them in any other queue.
pub nack_destination :
    (now : ℕ) (id name : Str) (requeue persist : Bool) (q : DurableQueue) (r : InflightRecord)
    (m : Message) (e : Engine)
    → IsConsistent e
    → get id e.by_id ≡ some name
    → get name e.queues ≡ some q
    → get id q.inflight ≡ some r
    → get id q.messages ≡ some m
    → ((nack now id requeue persist e).1 ≡ NackResult.ok)
      × (get id (nack now id requeue persist e).0.by_id ≡ place_after_nack name requeue q m)
      × ((n : Str)
          → stores n id (nack now id requeue persist e).0.queues
            ≡ owns n (place_after_nack name requeue q m))
      × ((n : Str) (x : DurableQueue)
          → get n (nack now id requeue persist e).0.queues ≡ some x
          → places x id ≡ bit (owns n (place_after_nack name requeue q m)))
nack_destination now id name requeue persist q r m e c n h there found =
    let keyed = (c.tracked name q h).keyed in
    let answered : ((nack now id requeue persist e).1 ≡ NackResult.ok)
        × (get id (nack now id requeue persist e).0.by_id ≡ place_after_nack name requeue q m) =
      ground (
        arith,
        nack_found now id name requeue persist q r m e n h there found,
        by_id-give_back now id name (record q { inflight = remove id q.inflight }) m requeue persist
            e,
        (keyed.messages id m found).0,
        keyed.spec.0,
      ) in
    let c' = nack-IsConsistent now id requeue persist e c in
    let stored : (n : Str)
        → stores n id (nack now id requeue persist e).0.queues
          ≡ owns n (place_after_nack name requeue q m) =
      λ k. c'.owned k id ∙ ap (owns k) answered.1 in
    (
      answered.0,
      answered.1,
      stored,
      λ k x at.
          (c'.tracked k x at).once id
          ∙ ap bit (
              sym (
                ap
                  (λ (o : Option DurableQueue). elim o [
                    | none ↦ false
                    | some y ↦ has id y.messages
                  ])
                  at)
              ∙ stored k),
    )

-- So a message that a consumer of a dead-letter queue gives back, after its last attempt, is in no
-- queue any more, although it was never acknowledged.
pub dlq_nack_loses :
    (now : ℕ) (id name : Str) (persist : Bool) (q : DurableQueue) (r : InflightRecord) (m : Message)
    (e : Engine)
    → IsConsistent e
    → get id e.by_id ≡ some name
    → get name e.queues ≡ some q
    → get id q.inflight ≡ some r
    → get id q.messages ≡ some m
    → is_dlq name ≡ true
    → m.max_attempts ≤ m.attempts + 1
    → ((nack now id true persist e).1 ≡ NackResult.ok)
      × ((n : Str) → stores n id (nack now id true persist e).0.queues ≡ false)
dlq_nack_loses now id name persist q r m e c n h there found dlq last =
    let (answer, place, _, _) =
      nack_destination now id name true persist q r m e c n h there found in
    let c' = nack-IsConsistent now id true persist e c in
    let fits = (c.tracked name q h).keyed.spec.1 in
    (answer, λ k. ground (arith, c'.owned k id, place, fits))
