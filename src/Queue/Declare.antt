-- ===== src/Queue/Declare.antt =====
-- `declare_queue` and `delete_queue`.
use one_open_broker.Prelude.{
  ℕ, zero, suc, Bool, true, false, not, ◌&&◌, Option, none, some, List, [], ◌∷◌, Str, if◌then◌else◌,
  length,
}
use one_open_broker.Dict.{Dict, get, remove, keys}
use one_open_broker.Core.Names.{dlq_name, is_dlq}
use one_open_broker.Queue.State.{
  QueueSpec, DurableQueue, Engine, Settings, new_queue, store, log, queue_declare, queue_delete,
}

-- The keyword arguments of `declare_queue`.
pub record QueueOptions : Type 0 where
  pub durable : Bool
  pub max_length : Option ℕ
  pub visibility_timeout : Option ℕ
  pub max_attempts : Option ℕ
  pub dead_letter : Bool

abbrev pub default_options : QueueOptions
default_options = record {
  durable = true;
  max_length = none;
  visibility_timeout = none;
  max_attempts = none;
  dead_letter = true;
}

-- `x if x is not None else d`
abbrev pub given_or {ℓ} : {A : Type ℓ} → Option A → A → A
given_or none d = d
given_or (some x) d = x

abbrev pub or_else {ℓ} : {A : Type ℓ} → Option A → Option A → Option A
or_else none d = d
or_else (some x) d = some x

unfoldable pub spec_of : Settings → Str → QueueOptions → QueueSpec
spec_of s name o = record {
  name = name;
  durable = o.durable;
  max_length = or_else o.max_length s.max_length;
  visibility_timeout = given_or o.visibility_timeout s.visibility_timeout;
  max_attempts = given_or o.max_attempts s.max_attempts;
  dead_letter = o.dead_letter && not (is_dlq name);
}

-- The arguments of the nested call, which declares the dead-letter queue.
abbrev pub dlq_options : QueueSpec → QueueOptions
dlq_options spec = record {
  durable = true;
  max_length = none;
  visibility_timeout = some spec.visibility_timeout;
  max_attempts = some 1;
  dead_letter = false;
}

-- The body of `declare_queue`, given its recursive call.
unfoldable pub declare_with :
    (Str → QueueOptions → Engine → Engine)
    → Str
    → QueueOptions
    → Bool
    → Engine
    → Engine × DurableQueue
declare_with nested name o persist e = elim (get name e.queues) [
  | some existing ↦ (e, existing)
  | none ↦
      let spec = spec_of e.settings name o in
      let queue = new_queue spec in
      let added = store name queue e in
      let both =
        if spec.dead_letter then nested (dlq_name name) (dlq_options spec) added else added in
      (log persist (queue_declare spec) both, queue)
]

-- The nested call asks for no dead-letter queue, so it makes no call of its own.
unfoldable pub declare_plain : Bool → Str → QueueOptions → Engine → Engine
declare_plain persist name o e = (declare_with (λ _ _ e'. e') name o persist e).0

unfoldable pub declare_queue : Str → QueueOptions → Bool → Engine → Engine × DurableQueue
declare_queue name o persist e = declare_with (declare_plain persist) name o persist e

-- `self._by_id.pop(message_id, None)` for every message of the queue.
unfoldable pub remove_all : List Str → Dict Str → Dict Str
remove_all [] d = d
remove_all (id ∷ ids) d = remove_all ids (remove id d)

-- `delete_queue` with fuel; each call that goes on has popped a queue.
unfoldable pub delete_fuel : ℕ → Str → Bool → Engine → Engine × Bool
delete_fuel zero name persist e = (e, false)
delete_fuel (suc fuel) name persist e = elim (get name e.queues) [
  | none ↦ (e, false)
  | some queue ↦
      let popped = record e {
        queues = remove name e.queues;
        by_id = remove_all (keys queue.messages) e.by_id;
      } in
      let logged = log persist (queue_delete name) popped in
      let rest = delete_fuel fuel (dlq_name name) persist logged in
      (if queue.spec.dead_letter then rest.0 else logged, true)
]

unfoldable pub delete_queue : Str → Bool → Engine → Engine × Bool
delete_queue name persist e = delete_fuel (suc (length e.queues)) name persist e
