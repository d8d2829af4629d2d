-- ===== src/Queue/Consistent/Store.antt =====
-- How the invariant comes through one assignment to a queue and to `_by_id`.
use mathlib.Core.Path.{subst₂}
use one_open_broker.Prelude.{
  ◌≡◌, ap, true, false, Option, none, some, Str, str_eq, str_eq_iff, if◌then◌else◌, arith,
  Bool-cases, inl, inr,
}
use one_open_broker.Dict.{Dict, get, put, remove, has, get-put, get-remove}
use one_open_broker.Queue.State.{DurableQueue}
use one_open_broker.Queue.Consistent.{IsTracked, Consistent, owns}

owns→eq : (name : Str) (o : Option Str) → owns name o ≡ true → o ≡ some name
owns→eq name none h = cc
owns→eq name (some owner) h = ap some ((str_eq_iff owner name).0 h)

module _ {name : Str} {queues : Dict DurableQueue} {by_id : Dict Str} where
  IsTracked-put :
      (new : DurableQueue)
      → Consistent queues by_id
      → IsTracked name new
      → (n : Str) (q : DurableQueue) → get n (put name new queues) ≡ some q
      → IsTracked n q
  IsTracked-put new c t n q h = elim (Bool-cases (str_eq name n)) [
    | inl e ↦
        subst₂ IsTracked ((str_eq_iff name n).0 e) (ground (arith, get-put name n new queues)) t
    | inr e ↦ c.tracked n q (ground (arith, get-put name n new queues))
  ]

  -- A queue is replaced by one that stores the same messages.
  pub Consistent-same :
      (old new : DurableQueue)
      → Consistent queues by_id
      → get name queues ≡ some old
      → IsTracked name new
      → ((id : Str) → has id new.messages ≡ has id old.messages)
      → Consistent (put name new queues) by_id
  Consistent-same old new c h t same = record {
    tracked = IsTracked-put new c t;
    owned = λ n id.
        ground (arith, get-put name n new queues, c.owned n id, same id, str_eq_iff name n, h);
  }

  -- `_by_id` names the queue of a stored message.
  pub owner_of_stored :
      (id : Str) (q : DurableQueue)
      → Consistent queues by_id
      → get name queues ≡ some q
      → has id q.messages ≡ true
      → get id by_id ≡ some name
  owner_of_stored id q c h there = owns→eq name (get id by_id) (ground (arith, c.owned name id))

  -- A stored message leaves its queue and `_by_id`.
  pub Consistent-drop :
      (id : Str) (old new : DurableQueue)
      → Consistent queues by_id
      → get name queues ≡ some old
      → IsTracked name new
      → has id old.messages ≡ true
      → ((j : Str) → has j new.messages ≡ (if str_eq id j then false else has j old.messages))
      → Consistent (put name new queues) (remove id by_id)
  Consistent-drop id old new c h t there gone = record {
    tracked = IsTracked-put new c t;
    owned = λ n j. ground (
      arith,
      get-put name n new queues,
      get-remove id j by_id,
      c.owned n j,
      owner_of_stored id old c h there,
      gone j,
      str_eq_iff name n,
      str_eq_iff id j,
      h,
    );
  }

  -- A message that no queue stores enters a queue and `_by_id`.
  pub Consistent-add :
      (id : Str) (old new : DurableQueue)
      → Consistent queues by_id
      → get name queues ≡ some old
      → IsTracked name new
      → get id by_id ≡ none
      → ((j : Str) → has j new.messages ≡ (if str_eq id j then true else has j old.messages))
      → Consistent (put name new queues) (put id name by_id)
  Consistent-add id old new c h t absent added = record {
    tracked = IsTracked-put new c t;
    owned = λ n j. ground (
      arith,
      get-put name n new queues,
      get-put id j name by_id,
      c.owned n j,
      added j,
      str_eq_iff name n,
      str_eq_iff id j,
      h,
    );
  }

  -- A queue without messages is declared.
  pub Consistent-declare :
      (new : DurableQueue)
      → Consistent queues by_id
      → get name queues ≡ none
      → IsTracked name new
      → ((j : Str) → has j new.messages ≡ false)
      → Consistent (put name new queues) by_id
  Consistent-declare new c h t empty = record {
    tracked = IsTracked-put new c t;
    owned = λ n j.
        ground (arith, get-put name n new queues, c.owned n j, empty j, str_eq_iff name n, h);
  }
