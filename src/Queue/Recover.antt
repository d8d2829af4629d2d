-- ===== src/Queue/Recover.antt =====
-- `recover_consumer`: the deliveries of a consumer that went away are given back.
use one_open_broker.Prelude.{
  ℕ, ◌+◌, Bool, Option, none, some, List, [], ◌∷◌, Str, str_eq, if◌then◌else◌, length, ◌==◌,
}
use one_open_broker.Dict.{Dict, get, remove, keys}
use one_open_broker.Core.Message.{InflightRecord}
use one_open_broker.Queue.State.{Engine, store}
use one_open_broker.Queue.Retry.{retry_or_dead}

-- `[rec for rec in list(queue.inflight.values()) if rec.consumer_id == consumer_id]`
unfoldable pub held_by : Str → Dict InflightRecord → List InflightRecord
held_by consumer_id [] = []
held_by consumer_id ((id, r) ∷ d) =
    let rest = held_by consumer_id d in if str_eq r.consumer_id consumer_id then r ∷ rest else rest

-- The body of the inner loop; the number says whether the delivery is counted. The queue is in the
-- dictionary that the outer loop walks, so the lookup succeeds.
unfoldable pub recover_one : ℕ → Str → InflightRecord → Bool → Engine → Engine × ℕ
recover_one now name r persist e = elim (get name e.queues) [
  | none ↦ (e, 0)
  | some q ↦
      let taken = record q { inflight = remove r.message_id q.inflight } in
      elim (get r.message_id q.messages) [
        | none ↦ (store name taken e, 0)
        | some m ↦ (retry_or_dead now name taken m persist e, 1)
      ]
]

unfoldable pub recover_all : ℕ → Str → List InflightRecord → Bool → Engine → Engine × ℕ
recover_all now name [] persist e = (e, 0)
recover_all now name (r ∷ rs) persist e =
    let (e', n) = recover_one now name r persist e in
    let (e'', k) = recover_all now name rs persist e' in (e'', n + k)

unfoldable pub recover_queue : ℕ → Str → Str → Bool → Engine → Engine × ℕ
recover_queue now consumer_id name persist e = elim (get name e.queues) [
  | none ↦ (e, 0)
  | some q ↦ recover_all now name (held_by consumer_id q.inflight) persist e
]

-- The loop over `self._queues.values()`. Each step of the iterator raises `RuntimeError` if the
-- number of queues is no longer what it was when the loop began: the result is then `none`.
unfoldable pub recover_from : ℕ → ℕ → Str → List Str → ℕ → Bool → Engine → Engine × Option ℕ
recover_from size now consumer_id [] recovered persist e =
    (e, if length e.queues == size then some recovered else none)
recover_from size now consumer_id (name ∷ names) recovered persist e =
    let (e', n) = recover_queue now consumer_id name persist e in
    let rest = recover_from size now consumer_id names (recovered + n) persist e' in
    if length e.queues == size then rest else (e, none)

unfoldable pub recover_consumer : ℕ → Str → Bool → Engine → Engine × Option ℕ
recover_consumer now consumer_id persist e =
    recover_from (length e.queues) now consumer_id (keys e.queues) 0 persist e
