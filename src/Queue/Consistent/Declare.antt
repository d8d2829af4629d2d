-- ===== src/Queue/Consistent/Declare.antt =====
-- `declare_queue` keeps the indexes consistent.
use one_open_broker.Prelude.{
  ◌≡◌, ◌∙◌, refl, Bool, true, false, Option, none, some, Str, str_eq, str_eq_ne, arith,
  Option-cases, inl, inr, if◌then◌else◌,
}
use one_open_broker.Dict.{get, put, has, get-put}
use one_open_broker.Core.Names.{dlq_name, dlq_name-ne}
use one_open_broker.Prelude.{str_eq_refl}
use one_open_broker.Queue.State.{DurableQueue, Engine, new_queue, store, log}
use one_open_broker.Queue.Declare.{
  QueueOptions, default_options, spec_of, dlq_options, declare_with, declare_plain, declare_queue,
}
use one_open_broker.Queue.Consistent.{IsConsistent, log-IsConsistent, if-IsConsistent, log-queues}
use one_open_broker.Queue.Consistent.Store.{Consistent-declare}
use one_open_broker.Queue.Consistent.Places.{new_queue-IsTracked}

module _ (name : Str) (o : QueueOptions) (e : Engine) where
  added-IsConsistent :
      IsConsistent e
      → get name e.queues ≡ none
      → IsConsistent (store name (new_queue (spec_of e.settings name o)) e)
  unfolding store has spec_of
  added-IsConsistent c absent =
      Consistent-declare _ c absent
        (new_queue-IsTracked name (spec_of e.settings name o) (refl, λ p. ground arith)) (λ j. refl)

module _ (nested : Str → QueueOptions → Engine → Engine)
    (keeps : (n : Str) (o : QueueOptions) (e : Engine)
      → IsConsistent e
      → IsConsistent (nested n o e)) where
  declare_with-IsConsistent :
      (name : Str) (o : QueueOptions) (persist : Bool) (e : Engine)
      → IsConsistent e
      → IsConsistent (declare_with nested name o persist e).0
  unfolding declare_with
  declare_with-IsConsistent name o persist e c = elim (Option-cases (get name e.queues)) [
    | inr (q, h) ↦ rw (h, declare_with) c
    | inl h ↦
        rw (h, declare_with)
          (log-IsConsistent persist _ _ (
            if-IsConsistent (spec_of e.settings name o).dead_letter _ _
              (keeps _ _ _ (added-IsConsistent name o e c h)) (added-IsConsistent name o e c h)))
  ]

declare_plain-IsConsistent :
    (persist : Bool) (name : Str) (o : QueueOptions) (e : Engine)
    → IsConsistent e
    → IsConsistent (declare_plain persist name o e)
unfolding declare_plain
declare_plain-IsConsistent persist name o e c =
    declare_with-IsConsistent (λ _ _ e'. e') (λ _ _ _ k. k) name o persist e c

-- Declaring a queue, with its dead-letter queue or without, keeps the indexes consistent.
pub declare_queue-IsConsistent :
    (name : Str) (o : QueueOptions) (persist : Bool) (e : Engine)
    → IsConsistent e
    → IsConsistent (declare_queue name o persist e).0
unfolding declare_queue
declare_queue-IsConsistent name o persist e c =
    declare_with-IsConsistent (declare_plain persist) (declare_plain-IsConsistent persist) name o
      persist e c

abbrev pub dest_options : QueueOptions
dest_options = record default_options { dead_letter = false }

-- What `_move_to_dlq` relies on: its declaration touches no message, and the queue is there.
pub declare_dest :
    (name : Str) (e : Engine)
    → (get name (declare_queue name dest_options false e).0.queues
        ≡ some (declare_queue name dest_options false e).1)
      × ((declare_queue name dest_options false e).0.by_id ≡ e.by_id)
unfolding declare_queue declare_with store log spec_of
declare_dest name e = elim (Option-cases (get name e.queues)) [
  | inr (q, h) ↦ rw (h, declare_queue, declare_with) (h, refl)
  | inl h ↦
      rw (h, declare_queue, declare_with)
        (
          ground (
            arith,
            get-put name name (new_queue (spec_of e.settings name dest_options)) e.queues,
            str_eq_refl name,
          ),
          refl,
        )
]

-- The nested declaration leaves the other queues alone.
get-declare_plain :
    (persist : Bool) (n name : Str) (o : QueueOptions) (e : Engine)
    → str_eq n name ≡ false
    → get name (declare_plain persist n o e).queues ≡ get name e.queues
unfolding declare_plain declare_with store
get-declare_plain persist n name o e d = elim (Option-cases (get n e.queues)) [
  | inr (q, h) ↦ rw (h, declare_plain, declare_with) refl
  | inl h ↦
      rw (h, declare_plain, declare_with, log-queues)
        (ground (arith, get-put n name (new_queue (spec_of e.settings n o)) e.queues))
]

if-queues :
    (name : Str) (v : Option DurableQueue) (b : Bool) (x y : Engine)
    → (b ≡ true → get name x.queues ≡ v)
    → get name y.queues ≡ v
    → get name (if b then x else y).queues ≡ v
if-queues name v true x y h k = h refl
if-queues name v false x y h k = k

-- The queue that `declare_queue` returns is the one under its name.
pub declare_queue_found :
    (name : Str) (o : QueueOptions) (persist : Bool) (e : Engine)
    → get name (declare_queue name o persist e).0.queues ≡ some (declare_queue name o persist e).1
unfolding declare_queue declare_with store
declare_queue_found name o persist e = elim (Option-cases (get name e.queues)) [
  | inr (q, h) ↦ rw (h, declare_with) h
  | inl h ↦
      let spec = spec_of e.settings name o in
      let added = put name (new_queue spec) e.queues in
      let here : get name added ≡ some (new_queue spec) =
        ground (arith, get-put name name (new_queue spec) e.queues, str_eq_refl name) in
      rw (h, declare_with, log-queues)
        (if-queues name _ spec.dead_letter _ _
          (λ asked.
            get-declare_plain persist (dlq_name name) name (dlq_options spec) _
              (str_eq_ne (dlq_name name) name (dlq_name-ne name (unfold spec_of in ground arith)))
            ∙ here)
          here)
]
