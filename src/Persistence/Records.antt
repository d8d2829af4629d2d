-- ===== src/Persistence/Records.antt =====
-- `encode_record`, `decode_record` and `read_aof`. `crc32` stands for `zlib.crc32`, `dumps` and `loads`
-- for the JSON text of the metadata; `loads` has no answer where it raises.
use one_open_broker.Prelude.{
  ℕ, zero, suc, ◌+◌, ◌%◌, ◌^◌, ◌&&◌, Option, none, some, List, [], ◌∷◌, ◌++◌, if◌then◌else◌, length,
  take, drop, ltb, ◌==◌, str_eq, codes,
}
use one_open_broker.Core.Message.{Bytes}
use one_open_broker.Protocol.Words.{big_endian, read_word}
use one_open_broker.Protocol.Frames.{field_at}

abbrev pub aof_magic : Bytes
aof_magic = codes "OAOF"

-- `HEADER_STRUCT.size`: 4, 1, 2, 8, 8, 4, 4 and 4 bytes.
abbrev pub record_header_size : ℕ
record_header_size = 35

pub data Op : Type 0 where
  op_queue_declare op_queue_delete op_exchange_declare op_exchange_delete op_bind op_unbind
        op_message_publish op_message_ack op_message_nack op_message_requeue op_message_dead :
      Op

unfoldable pub op_id : Op → ℕ
op_id op_queue_declare = 1
op_id op_queue_delete = 2
op_id op_exchange_declare = 3
op_id op_exchange_delete = 4
op_id op_bind = 5
op_id op_unbind = 6
op_id op_message_publish = 7
op_id op_message_ack = 8
op_id op_message_nack = 9
op_id op_message_requeue = 10
op_id op_message_dead = 11

abbrev pub all_ops : List Op
all_ops =
    op_queue_declare ∷ op_queue_delete ∷ op_exchange_declare ∷ op_exchange_delete ∷ op_bind
    ∷ op_unbind ∷ op_message_publish ∷ op_message_ack ∷ op_message_nack ∷ op_message_requeue
    ∷ op_message_dead ∷ []

unfoldable pub find_op : ℕ → List Op → Option Op
find_op n [] = none
find_op n (op ∷ ops) = let rest = find_op n ops in if op_id op == n then some op else rest

-- `NAME_BY_OP.get(op_id)`
unfoldable pub op_of : ℕ → Option Op
op_of n = find_op n all_ops

-- The time stamp is the eight bytes of its double.
pub record AofRecord {ℓ} (Meta : Type ℓ) : Type ℓ where
  pub seq : ℕ
  pub op : Op
  pub metadata : Meta
  pub payload : Bytes
  pub timestamp : Bytes

-- What `decode_record` does: `(None, 0)`, a `ValueError`, or a record and the bytes that it took.
pub data Decoding {ℓ} (Meta : Type ℓ) : Type ℓ where
  partial corrupt : Decoding Meta
  complete : AofRecord Meta → ℕ → Decoding Meta

unfoldable pub record_header : Op → ℕ → Bytes → ℕ → ℕ → Bytes
record_header op seq timestamp meta_len payload_len =
    aof_magic
    ++ (big_endian 1 1
        ++ (big_endian 2 (op_id op)
            ++ (big_endian 8 seq
                ++ (timestamp ++ (big_endian 4 meta_len ++ big_endian 4 payload_len)))))

module _ (crc32 : Bytes → ℕ) where
  unfoldable pub record_checksum : Bytes → Bytes → Bytes → ℕ
  record_checksum header meta_b payload = crc32 (header ++ (meta_b ++ payload)) % 2 ^ 32

  -- `none` is the `struct.error` of a number that does not fit its field.
  unfoldable pub encode_record {ℓ} :
      {Meta : Type ℓ} → (Meta → Bytes) → AofRecord Meta → Option Bytes
  encode_record dumps r =
      let meta_b = dumps r.metadata in
      let header = record_header r.op r.seq r.timestamp (length meta_b) (length r.payload) in
      if ltb r.seq (2 ^ 64) && (ltb (length meta_b) (2 ^ 32) && ltb (length r.payload) (2 ^ 32))
      then some (
          header
          ++ (big_endian 4 (record_checksum header meta_b r.payload) ++ (meta_b ++ r.payload)))
      else none

  -- The part after the length was tested. `empty` is the metadata `{}`.
  unfoldable pub decode_body {ℓ} :
      {Meta : Type ℓ} → (Bytes → Option Meta) → Meta → Bytes → Decoding Meta
  decode_body loads empty buf =
      let meta_len = read_word (field_at 23 4 buf) in
      let payload_len = read_word (field_at 27 4 buf) in
      let total = record_header_size + meta_len + payload_len in
      let meta_b = field_at record_header_size meta_len buf in
      let payload = field_at (record_header_size + meta_len) payload_len buf in
      if ltb (length buf) total
      then partial
      else if record_checksum (take 31 buf) meta_b payload == read_word (field_at 31 4 buf)
      then elim (op_of (read_word (field_at 5 2 buf))) [
        | none ↦ corrupt
        | some op ↦ elim (if str_eq meta_b [] then some empty else loads meta_b) [
          | none ↦ corrupt
          | some metadata ↦
              complete
                (record {
                  seq = read_word (field_at 7 8 buf);
                  op = op;
                  metadata = metadata;
                  payload = payload;
                  timestamp = field_at 15 8 buf;
                })
                total
        ]
      ]
      else corrupt

  unfoldable pub decode_record {ℓ} :
      {Meta : Type ℓ} → (Bytes → Option Meta) → Meta → Bytes → Decoding Meta
  decode_record loads empty buf =
      if ltb (length buf) record_header_size
      then partial
      else if str_eq (take 4 buf) aof_magic && read_word (field_at 4 1 buf) == 1
      then decode_body loads empty buf
      else corrupt

  -- The loop of `read_aof` over the bytes from `offset` on, with fuel: a record takes its header at
  -- least. Returns the records and the size to keep.
  unfoldable pub read_fuel {ℓ} :
      {Meta : Type ℓ} → (Bytes → Option Meta) → Meta → ℕ → ℕ → Bytes → List (AofRecord Meta) × ℕ
  read_fuel loads empty zero offset data_left = ([], offset)
  read_fuel loads empty (suc fuel) offset data_left = elim (decode_record loads empty data_left) [
    | partial ↦ ([], offset)
    | corrupt ↦ ([], offset)
    | complete r consumed ↦
        let (records, keep) =
          read_fuel loads empty fuel (offset + consumed) (drop consumed data_left) in
        (r ∷ records, keep)
  ]

  unfoldable pub read_aof {ℓ} :
      {Meta : Type ℓ} → (Bytes → Option Meta) → Meta → Bytes → List (AofRecord Meta) × ℕ
  read_aof loads empty bytes = read_fuel loads empty (length bytes) 0 bytes
