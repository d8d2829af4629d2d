-- ===== src/Queue/Consistent/Ids.antt =====
-- What `declare_queue` and `enqueue` leave of `_by_id`.
use one_open_broker.Prelude.{
  ℕ, ◌≡◌, refl, Bool, true, false, none, Str, str_eq, if◌then◌else◌, Bool-cases, Option-cases, inl,
  inr, arith,
}
use one_open_broker.Dict.{get, put, get-put}
use one_open_broker.Core.Message.{Message}
use one_open_broker.Queue.State.{DurableQueue, Engine, JournalRecord, store, log}
use one_open_broker.Queue.Declare.{
  QueueOptions, spec_of, declare_with, declare_plain, declare_queue,
}
use one_open_broker.Queue.Publish.{is_full, is_future, enqueue_later, enqueue_now, accept, enqueue}

pub by_id-log :
    (persist : Bool) (r : JournalRecord) (e : Engine) → (log persist r e).by_id ≡ e.by_id
unfolding log
by_id-log true r e = refl
by_id-log false r e = refl

by_id-if :
    (b : Bool) (x y e : Engine)
    → x.by_id ≡ e.by_id
    → y.by_id ≡ e.by_id
    → (if b then x else y).by_id ≡ e.by_id
by_id-if true x y e p q = p
by_id-if false x y e p q = q

module _ (nested : Str → QueueOptions → Engine → Engine)
    (same : (n : Str) (o : QueueOptions) (e : Engine) → (nested n o e).by_id ≡ e.by_id) where
  by_id-declare_with :
      (name : Str) (o : QueueOptions) (persist : Bool) (e : Engine)
      → (declare_with nested name o persist e).0.by_id ≡ e.by_id
  unfolding declare_with store
  by_id-declare_with name o persist e = elim (Option-cases (get name e.queues)) [
    | inr (q, h) ↦ rw (h, declare_with) refl
    | inl h ↦
        rw (h, declare_with)
          (rw by_id-log (by_id-if (spec_of e.settings name o).dead_letter _ _ e (same _ _ _) refl))
  ]

pub by_id-declare_queue :
    (name : Str) (o : QueueOptions) (persist : Bool) (e : Engine)
    → (declare_queue name o persist e).0.by_id ≡ e.by_id
unfolding declare_queue declare_plain
by_id-declare_queue name o persist e =
    by_id-declare_with (declare_plain persist)
      (λ n p e'. by_id-declare_with (λ _ _ e''. e'') (λ _ _ _. refl) n p persist e') name o persist
      e

-- A message that is published makes no other known.
module _ (id : Str) (m : Message) (persist : Bool) (q : DurableQueue) (e : Engine)
    (other : str_eq m.id id ≡ false) (unknown : get id e.by_id ≡ none) where
  put_other : get id (put m.id m.queue e.by_id) ≡ none
  put_other = ground (arith, get-put m.id id m.queue e.by_id)

  get-accept : (now : ℕ) → get id (accept now m persist q e).by_id ≡ none
  unfolding accept enqueue_later enqueue_now store
  get-accept now = elim (Bool-cases (is_future m.available_at now)) [
    | inr due ↦ rw (due, accept) (rw by_id-log put_other)
    | inl later ↦ elim (Option-cases m.available_at) [
      | inl blank ↦ rw (later, accept) (rw blank unknown)
      | inr (when, set) ↦ rw (later, accept) (rw set (rw by_id-log put_other))
    ]
  ]

pub get-enqueue :
    (id : Str) (now : ℕ) (m : Message) (persist : Bool) (e : Engine)
    → str_eq m.id id ≡ false
    → get id e.by_id ≡ none
    → get id (enqueue now m persist e).0.by_id ≡ none
unfolding enqueue
get-enqueue id now m persist e other unknown = elim (Option-cases (get m.queue e.queues)) [
  | inl gone ↦ rw (gone, enqueue) unknown
  | inr (q, there) ↦ elim (Bool-cases (is_full q)) [
    | inl full ↦ rw (there, enqueue) (rw full unknown)
    | inr room ↦ rw (there, enqueue) (rw room (get-accept id m persist q e other unknown now))
  ]
]
