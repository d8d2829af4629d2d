-- ===== src/Queue/Due.antt =====
-- What `DelayedHeap.pop_due` pops.
use one_open_broker.Prelude.{
  ℕ, ◌≡◌, ◌<◌, ◌≤◌, refl, Bool, false, List, [], ◌∷◌, Str, All, arith, if◌then◌else◌, leb,
  Bool-cases, inl, inr,
}
use one_open_broker.Core.Heap.{IsHeap}
use one_open_broker.Core.Entries.{Deadline, deadline_before}
use one_open_broker.Queue.Timers.{pop_due}

-- All entries whose time has come and that are wanted, in their order.
abbrev pub due_of : ℕ → (Str → Bool) → List Deadline → List (Str × Str)
due_of now wanted [] = []
due_of now wanted (x ∷ xs) =
    let rest = due_of now wanted xs in
    if leb x.when now then (if wanted x.id then (x.queue, x.id) ∷ rest else rest) else rest

-- All entries whose time has not come.
abbrev pub later_of : ℕ → List Deadline → List Deadline
later_of now [] = []
later_of now (x ∷ xs) = let rest = later_of now xs in if leb x.when now then rest else x ∷ rest

when_le : (x y : Deadline) → deadline_before y x ≡ false → x.when ≤ y.when
unfolding deadline_before
when_le x y h = ground arith

none_due :
    (now : ℕ) (wanted : Str → Bool) (x : Deadline) (xs : List Deadline)
    → now < x.when
    → All (λ y. deadline_before y x ≡ false) xs
    → (due_of now wanted xs ≡ []) × (later_of now xs ≡ xs)
none_due now wanted x [] h all = (refl, refl)
none_due now wanted x (y ∷ ys) h all =
    let late : leb y.when now ≡ false = ground (arith, when_le x y all.0) in
    let (a, b) = none_due now wanted x ys h all.1 in rw late (a, ground (arith, b))

-- From a heap in order, `pop_due` pops all entries whose time has come, returns those of them that
-- are wanted in the order of their times, and leaves exactly the others.
pub pop_due_lem :
    (now : ℕ) (wanted : Str → Bool) (heap : List Deadline)
    → IsHeap deadline_before heap
    → pop_due now wanted heap ≡ (due_of now wanted heap, later_of now heap)
unfolding pop_due
pop_due_lem now wanted [] h = refl
pop_due_lem now wanted (x ∷ xs) h = elim (Bool-cases (leb x.when now)) [
  | inl due ↦ rw (due, pop_due) (rw (pop_due_lem now wanted xs h.1) refl)
  | inr late ↦
      let (a, b) = none_due now wanted x xs (ground arith) h.0 in
      rw (late, pop_due) (rw (a, b) refl)
]
