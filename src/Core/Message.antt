-- ===== src/Core/Message.antt =====
-- core/message.py and core/inflight.py: a message, and the record of one delivery of it.
-- Times are numbers of ticks of one unit; headers are never read, and stand as their encoding.
use one_open_broker.Prelude.{ℕ, Option, List, Str}
use one_open_broker.Prelude.Int.{ℤ}

abbrev pub Bytes : Type 0
Bytes = List ℕ

pub record Message : Type 0 where
  pub id : Str
  pub queue : Str
  pub payload : Bytes
  pub created_at : ℕ
  pub attempts : ℕ
  pub max_attempts : ℕ
  pub priority : ℤ
  pub headers : Option Bytes
  pub available_at : Option ℕ
  pub exchange : Str
  pub routing_key : Str

pub record InflightRecord : Type 0 where
  pub message_id : Str
  pub queue : Str
  pub consumer_id : Str
  pub delivery_time : ℕ
  pub visibility_deadline : ℕ
