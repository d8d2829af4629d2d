-- ===== src/Core/Examples.antt =====
-- Names of dead-letter queues at concrete inputs.
use one_open_broker.Prelude.{◌≡◌, refl, false, codes, str_eq}
use one_open_broker.Core.Names.{
  ends_with, is_dlq, dlq_name, origin_queue, origin_queue-dlq_name, dlq_name-injective,
}

jobs_plain : is_dlq (codes "jobs") ≡ false
unfolding is_dlq ends_with str_eq
jobs_plain = refl

origin_queue_example : origin_queue (dlq_name (codes "jobs")) ≡ codes "jobs"
origin_queue_example = origin_queue-dlq_name (codes "jobs") jobs_plain

dlq_name-injective_example : codes "jobs" ≡ codes "jobs"
dlq_name-injective_example =
    dlq_name-injective (codes "jobs") (codes "jobs") jobs_plain jobs_plain refl
