-- ===== src/Queue/Consistent/Timers.antt =====
-- `tick` keeps the indexes consistent.
use one_open_broker.Prelude.{
  ℕ, ◌+◌, ◌≡◌, true, false, Option, none, List, [], ◌∷◌, Str, leb, ◌==◌, arith, Bool-cases,
  Option-cases, inl, inr, str_eq_iff,
}
use one_open_broker.Dict.{get, put, has, has-put, has-of-get, has-is_some, contains, discard}
use one_open_broker.Core.Message.{Message}
use one_open_broker.Core.Entries.{Deadline}
use one_open_broker.Queue.State.{DurableQueue, Engine, store}
use one_open_broker.Queue.Publish.{make_ready}
use one_open_broker.Queue.Timers.{
  release_one, release_all, release_delayed, timeout_one, timeout_from, timeout_inflight, tick,
}
use one_open_broker.Queue.Consistent.{IsConsistent, IsTracked}
use one_open_broker.Queue.Consistent.Store.{Consistent-same}
use one_open_broker.Queue.Consistent.Places.{IsTracked-release}
use one_open_broker.Queue.Consistent.Settle.{not_gone}
use one_open_broker.Queue.Consistent.Recover.{taken_back-IsConsistent}

-- A delayed id has its message, and is not in flight.
delayed_stored :
    (name id : Str) (q : DurableQueue)
    → IsTracked name q
    → contains id q.delayed_ids ≡ true
    → (has id q.messages ≡ true) × (has id q.inflight ≡ false)
delayed_stored name id q t asleep = ground (arith, t.once id)

has-make_ready-put :
    (n : ℕ) (id : Str) (m : Message) (q woken : DurableQueue) (j : Str)
    → has id q.messages ≡ true
    → has j (make_ready n m (record woken { messages = put id m q.messages })).messages
      ≡ has j q.messages
unfolding make_ready
has-make_ready-put n id m q woken j there =
    ground (arith, has-put id j m q.messages, str_eq_iff id j)

release_one-IsConsistent :
    (name id : Str) (e : Engine) → IsConsistent e → IsConsistent (release_one name id e).0
unfolding release_one store
release_one-IsConsistent name id e c = elim (Option-cases (get name e.queues)) [
  | inl h ↦ rw (h, release_one) c
  | inr (q, h) ↦
      rw (h, release_one)
        (elim (Bool-cases (contains id q.delayed_ids)) [
          | inr awake ↦ rw awake c
          | inl asleep ↦
              let t = c.tracked name q h in
              let (there, landed) = delayed_stored name id q t asleep in
              rw asleep (elim (Option-cases (get id q.messages)) [
                | inl gone ↦ absurd (ground (arith, has-is_some id q.messages))
                | inr (m, found) ↦
                    let (same_id, placed) = t.keyed.messages id m found in
                    rw (found, landed)
                      (Consistent-same q _ c h
                        (IsTracked-release q (e.seq + 1) id (record m { available_at = none }) t
                          asleep there same_id placed)
                        (λ j.
                          has-make_ready-put (e.seq + 1) id (record m { available_at = none }) q
                            (record q { delayed_ids = discard id q.delayed_ids }) j there))
              ])
        ])
]

release_all-IsConsistent :
    (due : List (Str × Str)) (e : Engine) → IsConsistent e → IsConsistent (release_all due e).0
unfolding release_all
release_all-IsConsistent [] e c = c
release_all-IsConsistent ((name, id) ∷ due) e c =
    release_all-IsConsistent due _ (release_one-IsConsistent name id e c)

release_delayed-IsConsistent :
    (ts : ℕ) (e : Engine) → IsConsistent e → IsConsistent (release_delayed ts e).0
unfolding release_delayed
release_delayed-IsConsistent ts e c = release_all-IsConsistent _ _ c

timeout_one-IsConsistent :
    (now : ℕ) (x : Deadline) (e : Engine) → IsConsistent e → IsConsistent (timeout_one now x e).0
unfolding timeout_one
timeout_one-IsConsistent now x e c = elim (Option-cases (get x.queue e.queues)) [
  | inl h ↦ rw (h, timeout_one) c
  | inr (q, h) ↦
      rw (h, timeout_one)
        (elim (Option-cases (get x.id q.inflight)) [
          | inl landed ↦ rw landed c
          | inr (r, flying) ↦ rw flying (elim (Bool-cases (r.visibility_deadline == x.when)) [
            | inr other ↦ rw other c
            | inl same ↦ rw same (elim (Option-cases (get x.id q.messages)) [
              | inl gone ↦
                  absurd (
                    not_gone x.id q (c.tracked x.queue q h) (has-of-get x.id q.inflight flying)
                      gone)
              | inr (m, found) ↦ rw found (
                  taken_back-IsConsistent now x.queue x.id q m true e c h
                    (has-of-get x.id q.inflight flying) found)
            ])
          ])
        ])
]

timeout_from-IsConsistent :
    (now ts : ℕ) (heap : List Deadline) (e : Engine)
    → IsConsistent e
    → IsConsistent (timeout_from now ts heap e).0
unfolding timeout_from
timeout_from-IsConsistent now ts [] e c = c
timeout_from-IsConsistent now ts (x ∷ heap) e c = elim (Bool-cases (leb x.when ts)) [
  | inr later ↦ rw later c
  | inl due ↦ rw due (
      timeout_from-IsConsistent now ts heap _
        (timeout_one-IsConsistent now x (record e { visibility_heap = heap }) c))
]

-- Releasing what is due and timing out what is overdue keep the indexes consistent.
pub tick-IsConsistent :
    (clock : ℕ) (now : Option ℕ) (e : Engine) → IsConsistent e → IsConsistent (tick clock now e).0
unfolding tick timeout_inflight
tick-IsConsistent clock now e c =
    timeout_from-IsConsistent clock _ _ _ (release_delayed-IsConsistent _ e c)
