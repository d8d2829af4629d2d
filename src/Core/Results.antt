-- ===== src/Core/Results.antt =====
-- core/results.py
pub data AckResult : Type 0 where
  ok not_found already_acked : AckResult

pub data NackResult : Type 0 where
  ok not_found unknown_delivery : NackResult

pub data EnqueueResult : Type 0 where
  ok queue_full not_found : EnqueueResult
