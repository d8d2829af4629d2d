-- ===== src/Queue/Consistent.antt =====
-- The invariant of the queue engine's indexes: every stored message is in exactly one of the ready
-- heap, the deliveries in flight and the delayed ids of its queue, nothing else is in them, and
-- `_by_id` names the one queue that stores a message.
use one_open_broker.Prelude.{
  ℕ, ◌+◌, ◌≡◌, refl, All, Bool, true, false, Option, none, some, Str, str_eq, if◌then◌else◌, List,
  arith, bit,
}
use one_open_broker.Dict.{Dict, get, has, contains, count, UniqueKeys}
use one_open_broker.Core.Message.{Message, InflightRecord}
use one_open_broker.Core.Names.{is_dlq}
use one_open_broker.Queue.State.{DurableQueue, QueueSpec, Engine, ready_ids, log, JournalRecord}
pub mod Store
pub mod Places
pub mod Declare
pub mod Retry
pub mod Publish
pub mod Reserve
pub mod Settle
pub mod Inflight
pub mod Recover
pub mod Timers
pub mod DeadLetters
pub mod Delete
pub mod Ids

-- In how many places of its queue a message id stands.
abbrev pub places : DurableQueue → Str → ℕ
places q id = count id (ready_ids q) + bit (has id q.inflight) + bit (contains id q.delayed_ids)

-- Messages stand under their own ids, in the queue that they name; so do deliveries, once each.
abbrev pub MessagesKeyed : Str → Dict Message → Type 0
MessagesKeyed name d = (id : Str) (m : Message) → get id d ≡ some m → (m.id ≡ id) × (m.queue ≡ name)

abbrev pub IsDeliveryKeyed : Str × InflightRecord → Type 0
IsDeliveryKeyed (id, r) = r.message_id ≡ id

abbrev pub DeliveriesKeyed : Dict InflightRecord → Type 0
DeliveriesKeyed d = All IsDeliveryKeyed d × UniqueKeys d

-- A queue stands under its own name, and no dead-letter queue has one of its own.
abbrev pub SpecFits : Str → QueueSpec → Type 0
SpecFits name spec = (spec.name ≡ name) × (spec.dead_letter ≡ true → is_dlq name ≡ false)

pub record IsKeyed (name : Str) (q : DurableQueue) : Type 0 where
  pub spec : SpecFits name q.spec
  pub messages : MessagesKeyed name q.messages
  pub deliveries : DeliveriesKeyed q.inflight

pub record IsTracked (name : Str) (q : DurableQueue) : Type 0 where
  pub keyed : IsKeyed name q
  pub once : (id : Str) → places q id ≡ bit (has id q.messages)

-- The same while the message `loose` is in no place.
pub record IsLoose (loose name : Str) (q : DurableQueue) : Type 0 where
  pub keyed : IsKeyed name q
  pub once : (id : Str) → places q id + bit (str_eq loose id) ≡ bit (has id q.messages)

-- Whether the queue of that name stores the message.
abbrev pub stores : Str → Str → Dict DurableQueue → Bool
stores name id queues = elim (get name queues) [ none ↦ false | some q ↦ has id q.messages ]

abbrev pub owns : Str → Option Str → Bool
owns name none = false
owns name (some owner) = str_eq owner name

pub record Consistent (queues : Dict DurableQueue) (by_id : Dict Str) : Type 0 where
  pub tracked : (name : Str) (q : DurableQueue) → get name queues ≡ some q → IsTracked name q
  pub owned : (name id : Str) → stores name id queues ≡ owns name (get id by_id)

abbrev pub IsConsistent : Engine → Type 0
IsConsistent e = Consistent e.queues e.by_id

pub log-IsConsistent :
    (persist : Bool) (r : JournalRecord) (e : Engine)
    → IsConsistent e
    → IsConsistent (log persist r e)
unfolding log
log-IsConsistent true r e c = c
log-IsConsistent false r e c = c

pub if-IsConsistent :
    (b : Bool) (x y : Engine) → IsConsistent x → IsConsistent y → IsConsistent (if b then x else y)
if-IsConsistent true x y cx cy = cx
if-IsConsistent false x y cx cy = cy

pub log-queues :
    (persist : Bool) (r : JournalRecord) (e : Engine) → (log persist r e).queues ≡ e.queues
unfolding log
log-queues true r e = refl
log-queues false r e = refl

pub log-by_id :
    (persist : Bool) (r : JournalRecord) (e : Engine) → (log persist r e).by_id ≡ e.by_id
unfolding log
log-by_id true r e = refl
log-by_id false r e = refl
