-- ===== src/Queue/DueExamples.antt =====
-- Popping deadlines at concrete inputs.
use one_open_broker.Prelude.{◌≡◌, true, List, [], codes}
use one_open_broker.Core.Heap.{IsHeap}
use one_open_broker.Core.Entries.{Deadline, deadline_before, push_deadline, push_deadline-IsHeap}
use one_open_broker.Queue.Timers.{pop_due}
use one_open_broker.Queue.Due.{due_of, later_of, pop_due_lem}

abbrev early : Deadline
early = record { when = 5; seq = 2; queue = codes "jobs"; id = codes "m2" }

abbrev late : Deadline
late = record { when = 9; seq = 1; queue = codes "jobs"; id = codes "m1" }

abbrev deadlines : List Deadline
deadlines = push_deadline early (push_deadline late [])

deadlines-IsHeap : IsHeap deadline_before deadlines
deadlines-IsHeap = push_deadline-IsHeap early _ (push_deadline-IsHeap late [] tt)

pop_due_example :
    pop_due 7 (λ id. true) deadlines ≡ (due_of 7 (λ id. true) deadlines, later_of 7 deadlines)
pop_due_example = pop_due_lem 7 (λ id. true) deadlines deadlines-IsHeap
