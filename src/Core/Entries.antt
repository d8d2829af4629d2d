-- ===== src/Core/Entries.antt =====
-- The tuples that the engine keeps in its heaps, in the order in which Python compares them:
-- (-priority, seq, id) for what is ready, (time, seq, queue, id) for deadlines.
use one_open_broker.Prelude.{
  ℕ, ◌≡◌, Bool, true, false, List, Str, str_eq, str_eq_iff, str_lt, str_lt_irrefl, str_lt_trans,
  ltb, ◌==◌, if◌then◌else◌, arith,
}
use one_open_broker.Prelude.Int.{ℤ, ltb_ℤ}
use one_open_broker.Core.Heap.{push, IsHeap, push-IsHeap}

pub record ReadyEntry : Type 0 where
  pub rank : ℤ
  pub seq : ℕ
  pub id : Str

pub record Deadline : Type 0 where
  pub when : ℕ
  pub seq : ℕ
  pub queue : Str
  pub id : Str

unfoldable pub ready_before : ReadyEntry → ReadyEntry → Bool
ready_before a b =
    if ltb_ℤ a.rank b.rank
    then true
    else if ltb_ℤ b.rank a.rank
    then false
    else if a.seq == b.seq
    then str_lt a.id b.id
    else ltb a.seq b.seq

unfoldable pub deadline_before : Deadline → Deadline → Bool
deadline_before a b =
    if a.when == b.when
    then (if a.seq == b.seq
        then (if str_eq a.queue b.queue then str_lt a.id b.id else str_lt a.queue b.queue)
        else ltb a.seq b.seq)
    else ltb a.when b.when

ready_before_irrefl : (a : ReadyEntry) → ready_before a a ≡ false
unfolding ready_before
ready_before_irrefl a = ground (arith, str_lt_irrefl a.id)

ready_before_trans :
    (a b c : ReadyEntry)
    → ready_before a b ≡ true
    → ready_before b c ≡ true
    → ready_before a c ≡ true
unfolding ready_before
ready_before_trans a b c h k = ground (arith, str_lt_trans a.id b.id c.id)

deadline_before_irrefl : (a : Deadline) → deadline_before a a ≡ false
unfolding deadline_before
deadline_before_irrefl a = ground (arith, str_lt_irrefl a.id, str_lt_irrefl a.queue)

deadline_before_trans :
    (a b c : Deadline)
    → deadline_before a b ≡ true
    → deadline_before b c ≡ true
    → deadline_before a c ≡ true
unfolding deadline_before
deadline_before_trans a b c h k = ground (
  arith,
  str_lt_trans a.id b.id c.id,
  str_lt_trans a.queue b.queue c.queue,
  str_eq_iff a.queue b.queue,
  str_eq_iff b.queue c.queue,
  str_eq_iff a.queue c.queue,
  str_lt_irrefl a.queue,
)

-- `heapq.heappush` on `queue.ready`
unfoldable pub push_ready : ReadyEntry → List ReadyEntry → List ReadyEntry
push_ready = push ready_before

-- `heapq.heappush` on a heap of deadlines
unfoldable pub push_deadline : Deadline → List Deadline → List Deadline
push_deadline = push deadline_before

pub push_ready-IsHeap :
    (x : ReadyEntry) (xs : List ReadyEntry)
    → IsHeap ready_before xs
    → IsHeap ready_before (push_ready x xs)
unfolding push_ready
push_ready-IsHeap = push-IsHeap ready_before ready_before_trans ready_before_irrefl

pub push_deadline-IsHeap :
    (x : Deadline) (xs : List Deadline)
    → IsHeap deadline_before xs
    → IsHeap deadline_before (push_deadline x xs)
unfolding push_deadline
push_deadline-IsHeap = push-IsHeap deadline_before deadline_before_trans deadline_before_irrefl
