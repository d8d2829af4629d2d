-- ===== src/Consumers/Drain.antt =====
-- `drain_queue` ends: each round that goes on takes an entry off the ready heap.
use one_open_broker.Prelude.{
  ℕ, zero, suc, ◌<◌, ◌≡◌, ◌≢◌, none, some, Str, arith, Option-cases, inl, inr,
}
use one_open_broker.Dict.{get}
use one_open_broker.Core.Message.{Message}
use one_open_broker.Consumers.State.{Consumer, Manager}
use one_open_broker.Consumers.Delivery.{try_reserve, drain_fuel, drain_queue, waiting}
use one_open_broker.Consumers.Window.{try_reserve-Handed}

pub try_reserve-fewer :
    (now : ℕ) (name : Str) (m : Manager) (delivery : Consumer × Message)
    → (try_reserve now name m).1 ≡ some delivery
    → waiting name (try_reserve now name m).0 < waiting name m
try_reserve-fewer now name m (c, message) h = elim (Option-cases (get name m.engine.queues)) [
  | inl gone ↦ absurd (unfold try_reserve in ground arith)
  | inr (q, k) ↦
      (try_reserve-Handed now name q m (try_reserve now name m).0 c message k
        (λ i. ((try_reserve now name m).0, h i))).fewer
]

drain_fuel_enough :
    (fuel now : ℕ) (name : Str) (m : Manager)
    → waiting name m < fuel
    → (drain_fuel fuel now name m).1 ≢ none
unfolding drain_fuel
drain_fuel_enough zero now name m h = absurd (omega arith)
drain_fuel_enough (suc fuel) now name m h = elim (Option-cases (try_reserve now name m).1) [
  | inl n ↦ λ e. ground arith
  | inr (delivery, k) ↦ λ e. ground (
    arith,
    drain_fuel_enough fuel now name (try_reserve now name m).0
        (omega (arith, try_reserve-fewer now name m delivery k)),
  )
]

-- `drain_queue` always ends and returns the list of its deliveries.
pub drain_queue_ends : (now : ℕ) (name : Str) (m : Manager) → (drain_queue now name m).1 ≢ none
unfolding drain_queue
drain_queue_ends now name m = drain_fuel_enough (suc (waiting name m)) now name m (omega arith)
