-- ===== src/Queue/Consistent/Delete.antt =====
-- `delete_queue` keeps the indexes consistent.
use one_open_broker.Prelude.{
  ℕ, zero, suc, ◌≡◌, refl, Bool, none, some, List, [], ◌∷◌, Str, arith, Option-cases, inl, inr,
  if◌then◌else◌, str_eq_iff, length,
}
use one_open_broker.Dict.{Dict, get, remove, keys, get-remove, contains, contains-keys}
use one_open_broker.Core.Names.{dlq_name}
use one_open_broker.Queue.State.{DurableQueue, Engine}
use one_open_broker.Queue.Declare.{remove_all, delete_fuel, delete_queue}
use one_open_broker.Queue.Consistent.{IsConsistent, Consistent, log-IsConsistent, if-IsConsistent}
use one_open_broker.Queue.Consistent.Store.{owner_of_stored}

get-remove_all :
    (ids : List Str) (j : Str) (d : Dict Str)
    → get j (remove_all ids d) ≡ (if contains j ids then none else get j d)
unfolding remove_all contains
get-remove_all [] j d = refl
get-remove_all (id ∷ ids) j d =
    ground (arith, get-remove_all ids j (remove id d), get-remove id j d)

module _ (name : Str) (q : DurableQueue) (queues : Dict DurableQueue) (by_id : Dict Str)
    (c : Consistent queues by_id) (h : get name queues ≡ some q) where
  Consistent-delete : Consistent (remove name queues) (remove_all (keys q.messages) by_id)
  Consistent-delete = record {
    tracked = λ n p k. c.tracked n p (ground (arith, get-remove name n queues));
    owned = λ n j. ground (
      arith,
      get-remove name n queues,
      get-remove_all (keys q.messages) j by_id,
      contains-keys j q.messages,
      c.owned n j,
      c.owned name j,
      owner_of_stored j q c h,
      str_eq_iff name n,
      h,
    );
  }

delete_fuel-IsConsistent :
    (fuel : ℕ) (name : Str) (persist : Bool) (e : Engine)
    → IsConsistent e
    → IsConsistent (delete_fuel fuel name persist e).0
unfolding delete_fuel
delete_fuel-IsConsistent zero name persist e c = c
delete_fuel-IsConsistent (suc fuel) name persist e c = elim (Option-cases (get name e.queues)) [
  | inl h ↦ rw (h, delete_fuel) c
  | inr (q, h) ↦
      let logged = log-IsConsistent persist _ _ (Consistent-delete name q e.queues e.by_id c h) in
      rw (h, delete_fuel)
        (if-IsConsistent q.spec.dead_letter _ _
          (delete_fuel-IsConsistent fuel (dlq_name name) persist _ logged) logged)
]

-- Deleting a queue, and its dead-letter queue with it, keeps the indexes consistent.
pub delete_queue-IsConsistent :
    (name : Str) (persist : Bool) (e : Engine)
    → IsConsistent e
    → IsConsistent (delete_queue name persist e).0
unfolding delete_queue
delete_queue-IsConsistent name persist e c =
    delete_fuel-IsConsistent (suc (length e.queues)) name persist e c
