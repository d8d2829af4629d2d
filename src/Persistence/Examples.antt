-- ===== src/Persistence/Examples.antt =====
-- A replay at a concrete journal, and a record at concrete bytes.
use one_open_broker.Prelude.{
  ℕ, ◌+◌, ◌≡◌, refl, true, Option, none, some, List, [], ◌∷◌, ◌++◌, Str, length, take, drop, str_eq,
}
use one_open_broker.Dict.{get}
use one_open_broker.Core.Message.{Bytes}
use one_open_broker.Queue.State.{
  JournalRecord, new_engine, queue_declare, message_publish, message_ack,
}
use one_open_broker.Queue.Run.{engine_runs}
use one_open_broker.Queue.Examples.{settings, jobs, first_id, first_message, declared, queue_in}
use one_open_broker.Routing.State.{
  Router, direct, on_engine, bind, on_queue_declared, add_binding, bound, binding_eq,
}
use one_open_broker.Protocol.Words.{big_endian, read_from, read_word}
use one_open_broker.Protocol.Frames.{field_at}
use one_open_broker.Persistence.Records.{
  op_message_ack, op_id, find_op, op_of, AofRecord, record_header, record_checksum, encode_record,
  decode_body, decode_record, read_fuel, read_aof,
}
use one_open_broker.Persistence.Replay.{declare_quietly, replay_publish, apply_record, replay}
use one_open_broker.Persistence.Torn.{written_log, read_aof_torn}
use one_open_broker.Persistence.Idle.{IsIdle}
use one_open_broker.Persistence.Lost.{router_of, without_settling, replay_ignores_settling}

abbrev empty_router : Router
empty_router = record {
  engine = new_engine settings;
  exchanges = ([], record { name = []; type = direct; durable = true }) ∷ [];
  bindings = [];
}

abbrev journal : List (ℕ × JournalRecord)
journal =
    (1, queue_declare (queue_in jobs declared).spec)
    ∷ (2, message_publish first_message)
    ∷ (3, message_ack first_id jobs)
    ∷ []

empty-IsIdle : IsIdle empty_router.engine.queues
unfolding get
empty-IsIdle = record { idle = λ name q h. cc }

replay_ignores_settling_example :
    router_of (replay 50 0 journal empty_router 0)
    ≡ router_of (replay 50 0 (without_settling journal) empty_router 0)
replay_ignores_settling_example = replay_ignores_settling 50 0 0 0 journal empty_router empty-IsIdle

-- The message that was acknowledged is in its queue again.
abbrev stored_after : Option (Router × ℕ) → Option Str
stored_after none = none
stored_after (some (r, last_seq)) = get first_id r.engine.by_id

comes_back : stored_after (replay 50 0 journal empty_router 0) ≡ some jobs
unfolding replay apply_record replay_publish declare_quietly on_queue_declared on_engine bind
    add_binding bound binding_eq engine_runs
comes_back = refl

abbrev sum : Bytes → ℕ
sum [] = 0
sum (b ∷ bs) = b + sum bs

abbrev sample : AofRecord Bytes
sample = record {
  seq = 5;
  op = op_message_ack;
  metadata = 123 ∷ 125 ∷ [];
  payload = 9 ∷ [];
  timestamp = 0 ∷ 0 ∷ 0 ∷ 0 ∷ 0 ∷ 0 ∷ 0 ∷ 0 ∷ [];
}

abbrev sample_bytes : Bytes
sample_bytes = elim (encode_record sum (λ (b : Bytes). b) sample) [ none ↦ [] | some bytes ↦ bytes ]

-- A whole record is read, and the torn one after it is cut off.
reads_whole :
    read_aof sum (λ b. some b) [] (sample_bytes ++ take 20 sample_bytes)
    ≡ (sample ∷ [], length sample_bytes)
unfolding read_aof read_fuel decode_record decode_body encode_record record_header record_checksum
    op_of find_op op_id big_endian read_word read_from field_at str_eq
reads_whole = refl

-- A plain text form in the place of JSON: the metadata behind a mark.
abbrev mark : Bytes → Bytes
mark b = 123 ∷ b

abbrev unmark : Bytes → Option Bytes
unmark [] = none
unmark (c ∷ b) = some b

abbrev bytes_of : Option Bytes → Bytes
bytes_of none = []
bytes_of (some b) = b

abbrev marked_bytes : Bytes
marked_bytes = bytes_of (encode_record sum mark sample)

abbrev marked_log : Bytes
marked_log = bytes_of (written_log sum mark (sample ∷ []))

encodes_sample : encode_record sum mark sample ≡ some marked_bytes
unfolding encode_record record_header record_checksum op_id big_endian
encodes_sample = refl

writes_log : written_log sum mark (sample ∷ []) ≡ some marked_log
unfolding written_log encode_record record_header record_checksum op_id big_endian
writes_log = refl

tears : marked_bytes ≡ take 20 marked_bytes ++ drop 20 marked_bytes
unfolding encode_record record_header record_checksum op_id big_endian
tears = refl

read_aof_torn_example :
    read_aof sum unmark [] (marked_log ++ take 20 marked_bytes) ≡ (sample ∷ [], length marked_log)
read_aof_torn_example =
    read_aof_torn sum mark unmark [] (λ d. refl) (λ d e. cc) (sample ∷ []) sample marked_log
      marked_bytes (take 20 marked_bytes) (drop 20 marked_bytes) writes_log (refl, tt)
      encodes_sample refl tears
      (unfold encode_record record_header record_checksum op_id big_endian in λ e. cc)
