-- ===== src/Queue/Consistent/Reserve.antt =====
-- `reserve` keeps the indexes consistent, and on a consistent queue it takes the first entry.
use mathlib.Core.Path.{subst}
use one_open_broker.Prelude.{
  ℕ, ◌≡◌, refl, some, List, [], ◌∷◌, Str, str_eq_refl, arith, Option-cases, inl, inr,
}
use one_open_broker.Dict.{get, has-is_some, count}
use one_open_broker.Core.Message.{Message}
use one_open_broker.Core.Entries.{ReadyEntry}
use one_open_broker.Queue.State.{DurableQueue, Engine, store}
use one_open_broker.Queue.Delivery.{next_ready, deliver, reserve}
use one_open_broker.Queue.Consistent.{IsConsistent, IsTracked}
use one_open_broker.Queue.Consistent.Store.{Consistent-same}
use one_open_broker.Queue.Consistent.Places.{IsTracked-deliver}

IsTracked-ready :
    {name : Str} (q : DurableQueue) (rs : List ReadyEntry)
    → q.ready ≡ rs
    → IsTracked name q
    → IsTracked name (record q { ready = rs })
IsTracked-ready {name} q rs e t = subst (λ xs. IsTracked name (record q { ready = xs })) e t

-- No entry of a consistent queue is stale: the loop stops at the first.
pub next_ready-first :
    (name : Str) (q : DurableQueue) (x : ReadyEntry) (xs : List ReadyEntry)
    → IsTracked name (record q { ready = x ∷ xs })
    → (m : Message) × (get x.id q.messages ≡ some m) × (next_ready q (x ∷ xs) ≡ (some (x, m), xs))
unfolding next_ready count
next_ready-first name q x xs t = elim (Option-cases (get x.id q.messages)) [
  | inl h ↦ absurd (ground (arith, t.once x.id, has-is_some x.id q.messages, str_eq_refl x.id))
  | inr (m, h) ↦ (m, h, ground (arith, t.once x.id, has-is_some x.id q.messages, str_eq_refl x.id))
]

module _ (now : ℕ) (name consumer_id : Str) (q : DurableQueue) (e : Engine) (c : IsConsistent e)
    (h : get name e.queues ≡ some q) where
  deliver-IsConsistent :
      (rs : List ReadyEntry)
      → IsTracked name (record q { ready = rs })
      → IsConsistent (deliver now name consumer_id q e (next_ready q rs)).0
  unfolding deliver store
  deliver-IsConsistent [] t = unfold next_ready in Consistent-same q _ c h t (λ j. refl)
  deliver-IsConsistent (x ∷ xs) t =
      let (m, found, first) = next_ready-first name q x xs t in
      rw first (Consistent-same q _ c h (IsTracked-deliver q x xs _ _ refl t) (λ j. refl))

-- `reserve` keeps the indexes consistent, whether it delivers or not.
pub reserve-IsConsistent :
    (now : ℕ) (name consumer_id : Str) (e : Engine)
    → IsConsistent e
    → IsConsistent (reserve now name consumer_id e).0
unfolding reserve
reserve-IsConsistent now name consumer_id e c = elim (Option-cases (get name e.queues)) [
  | inl h ↦ rw (h, reserve) c
  | inr (q, h) ↦
      rw (h, reserve)
        (deliver-IsConsistent now name consumer_id q e c h q.ready (c.tracked name q h))
]
