-- ===== src/Queue/Consistent/Publish.antt =====
-- `enqueue` keeps the indexes consistent, for a message id that is not stored yet.
use one_open_broker.Prelude.{
  ℕ, ◌+◌, ◌≡◌, refl, Bool, none, some, Bool-cases, Option-cases, inl, inr,
}
use one_open_broker.Dict.{get, has-put}
use one_open_broker.Core.Message.{Message}
use one_open_broker.Queue.State.{DurableQueue, Engine, store}
use one_open_broker.Queue.Publish.{
  is_full, is_future, take_in, enqueue_later, enqueue_now, accept, enqueue,
}
use one_open_broker.Queue.Consistent.{IsConsistent, log-IsConsistent, if-IsConsistent}
use one_open_broker.Queue.Consistent.Store.{Consistent-add}
use one_open_broker.Queue.Consistent.Places.{IsLoose-delay_new, IsLoose-make_ready, take_in-IsLoose}
use one_open_broker.Queue.Consistent.Retry.{not_stored, has-make_ready}

module _ (m : Message) (persist : Bool) (q : DurableQueue) (e : Engine) (c : IsConsistent e)
    (h : get m.queue e.queues ≡ some q) (fresh : get m.id e.by_id ≡ none) where
  enqueue_later-IsConsistent : (when : ℕ) → IsConsistent (enqueue_later when m persist q e)
  unfolding enqueue_later store take_in
  enqueue_later-IsConsistent when = log-IsConsistent persist _ _ (
      Consistent-add m.id q _ c h
        (IsLoose-delay_new m
          (take_in-IsLoose m refl (not_stored m.queue m.id q e c h fresh) (c.tracked m.queue q h)))
        fresh λ j. has-put m.id j m q.messages)

  enqueue_now-IsConsistent : IsConsistent (enqueue_now m persist q e)
  unfolding enqueue_now store
  enqueue_now-IsConsistent =
      let now : Message = record m { available_at = none } in
      log-IsConsistent persist _ _ (
        Consistent-add m.id q _ c h
          (IsLoose-make_ready (e.seq + 1) now (
            take_in-IsLoose now refl (not_stored m.queue m.id q e c h fresh)
              (c.tracked m.queue q h)))
          fresh (has-make_ready (e.seq + 1) now q))

  accept-IsConsistent : (now : ℕ) → IsConsistent (accept now m persist q e)
  unfolding accept
  accept-IsConsistent now =
      if-IsConsistent (is_future m.available_at now) _ _
        (elim (Option-cases m.available_at) [
          | inl e ↦ rw e c
          | inr (when, e) ↦ rw e (enqueue_later-IsConsistent when)
        ])
        enqueue_now-IsConsistent

-- Whatever it returns, `enqueue` keeps the indexes consistent.
pub enqueue-IsConsistent :
    (now : ℕ) (m : Message) (persist : Bool) (e : Engine)
    → IsConsistent e
    → get m.id e.by_id ≡ none
    → IsConsistent (enqueue now m persist e).0
unfolding enqueue
enqueue-IsConsistent now m persist e c fresh = elim (Option-cases (get m.queue e.queues)) [
  | inl h ↦ rw (h, enqueue) c
  | inr (q, h) ↦
      rw (h, enqueue)
        (elim (Bool-cases (is_full q)) [
          | inl full ↦ rw full c
          | inr room ↦ rw room (accept-IsConsistent m persist q e c h fresh now)
        ])
]
