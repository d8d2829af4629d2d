-- ===== src/Core/Qos.antt =====
-- core/qos.py: how many deliveries a consumer may hold unacknowledged.
use one_open_broker.Prelude.{
  ℕ, ◌+◌, ◌-◌, ◌≤◌, ◌<◌, Bool, true, false, ltb, ◌==◌, if◌then◌else◌, arith,
}

pub record QoS : Type 0 where
  pub prefetch_count : ℕ
  pub unacked_count : ℕ

unfoldable pub can_deliver : QoS → Bool
can_deliver c = if c.prefetch_count == 0 then true else ltb c.unacked_count c.prefetch_count

unfoldable pub on_deliver : QoS → QoS × Bool
unfolding can_deliver
on_deliver c =
    if can_deliver c then (record c { unacked_count = c.unacked_count + 1 }, true) else (c, false)

unfoldable pub on_ack : QoS → QoS
on_ack c = if ltb 0 c.unacked_count then record c { unacked_count = c.unacked_count - 1 } else c

unfoldable pub set_prefetch : ℕ → QoS → QoS
set_prefetch count c = record c { prefetch_count = count }

-- No more is outstanding than the window allows; a window of 0 is no window.
pub record InWindow (c : QoS) : Type 0 where
  pub within : 0 < c.prefetch_count → c.unacked_count ≤ c.prefetch_count

pub on_deliver-InWindow : (c : QoS) → InWindow c → InWindow (on_deliver c).0
unfolding on_deliver
on_deliver-InWindow c w = record { within = λ p. ground arith }

pub on_ack-InWindow : (c : QoS) → InWindow c → InWindow (on_ack c)
unfolding on_ack
on_ack-InWindow c w = record { within = λ p. ground arith }
