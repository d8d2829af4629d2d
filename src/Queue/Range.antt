-- ===== src/Queue/Range.antt =====
-- The range of the attempts in which `retry_delay` of core/retry.py has an answer. From the attempt 1025
-- on, `2 ** (attempts - 1)` is too large for a float, and the product raises an OverflowError. A message
-- is tried again only below its maximum of attempts, so a maximum of 1025 keeps it in the range.
use one_open_broker.Prelude.{
  ℕ, ◌+◌, ◌-◌, ◌<◌, ◌≡◌, Bool, true, false, ◌&&◌, Option, none, some, [], ◌∷◌, leb, arith,
}
use one_open_broker.Dict.{Dict}
use one_open_broker.Core.Message.{Message}
use one_open_broker.Queue.State.{DurableQueue, Engine}

abbrev pub most_attempts : ℕ
most_attempts = 1025

-- A maximum that a command may give.
abbrev pub attempts_in_range : Option ℕ → Bool
attempts_in_range none = true
attempts_in_range (some n) = leb n most_attempts

abbrev pub messages_in_range : Dict Message → Bool
messages_in_range [] = true
messages_in_range ((id, m) ∷ d) = leb m.max_attempts most_attempts && messages_in_range d

abbrev pub queues_in_range : Dict DurableQueue → Bool
queues_in_range [] = true
queues_in_range ((name, q) ∷ d) =
    leb q.spec.max_attempts most_attempts && (messages_in_range q.messages && queues_in_range d)

-- No message, no queue and no default of the engine has a maximum above the range.
abbrev pub in_range : Engine → Bool
in_range e = leb e.settings.max_attempts most_attempts && queues_in_range e.queues

-- `retry_or_dead` asks for a delay only where this exponent fits a float.
pub exponent_fits :
    (m : Message)
    → leb m.max_attempts most_attempts ≡ true
    → leb m.max_attempts (m.attempts + 1) ≡ false
    → m.attempts + 1 - 1 < 1024
exponent_fits m fits below = ground arith
