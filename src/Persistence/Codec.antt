-- ===== src/Persistence/Codec.antt =====
-- What `decode_record` makes of a record that was written whole, and of one that was not.
use one_open_broker.Prelude.{
  ℕ, ◌+◌, ◌≤◌, ◌<◌, ◌≡◌, ◌≢◌, ◌∙◌, refl, ap, sym, true, false, ◌&&◌, Option, some, [], ◌++◌, length,
  take, drop, str_eq, arith, ltb, take-append_le, drop-append_le, length-drop, str_eq_ne, ◌==◌,
}
use one_open_broker.Core.Message.{Bytes}
use one_open_broker.Protocol.Words.{read_word}
use one_open_broker.Protocol.Frames.{field_at}
use one_open_broker.Persistence.Records.{
  op_queue_declare, op_queue_delete, op_exchange_declare, op_exchange_delete, op_bind, op_unbind,
  op_message_publish, op_message_ack, op_message_nack, op_message_requeue, op_message_dead, Op,
  aof_magic, op_id, find_op, op_of, AofRecord, partial, complete, record_header_size,
  record_checksum, decode_body, decode_record,
}
use one_open_broker.Persistence.Layout.{Holds}

op_of-op_id : (op : Op) → op_of (op_id op) ≡ some op
unfolding op_of find_op op_id
op_of-op_id op_queue_declare = refl
op_of-op_id op_queue_delete = refl
op_of-op_id op_exchange_declare = refl
op_of-op_id op_exchange_delete = refl
op_of-op_id op_bind = refl
op_of-op_id op_unbind = refl
op_of-op_id op_message_publish = refl
op_of-op_id op_message_ack = refl
op_of-op_id op_message_nack = refl
op_of-op_id op_message_requeue = refl
op_of-op_id op_message_dead = refl

pub field_at-append :
    (a n : ℕ) (p q : Bytes) → a + n ≤ length p → field_at a n (p ++ q) ≡ field_at a n p
unfolding field_at
field_at-append a n p q room =
    ap (take n) (drop-append_le a p q (omega (arith, room)))
    ∙ take-append_le n (drop a p) q (omega (arith, room, length-drop a p))

-- The beginning of a buffer holds the same header, if that is whole.
pub Holds-prefix :
    (op seq meta_len payload_len : ℕ) (timestamp p q : Bytes)
    → 35 ≤ length p
    → Holds op seq meta_len payload_len timestamp (p ++ q)
    → Holds op seq meta_len payload_len timestamp p
Holds-prefix op seq meta_len payload_len timestamp p q long k =
    let same = λ (a n : ℕ) (room : a + n ≤ 35).
      ap read_word (sym (field_at-append a n p q (omega (arith, room, long)))) in
    record {
      magic = rw (sym (take-append_le 4 p q (omega (arith, long)))) k.magic;
      version = same 4 1 (omega arith) ∙ k.version;
      operation = same 5 2 (omega arith) ∙ k.operation;
      number = same 7 8 (omega arith) ∙ k.number;
      time = sym (field_at-append 15 8 p q (omega (arith, long))) ∙ k.time;
      metadata = same 23 4 (omega arith) ∙ k.metadata;
      payload = same 27 4 (omega arith) ∙ k.payload;
    }

module _ {Meta : Type 0} (crc32 : Bytes → ℕ) (loads : Bytes → Option Meta) (empty : Meta)
    (op seq meta_len payload_len : ℕ) (timestamp buf : Bytes)
    (k : Holds op seq meta_len payload_len timestamp buf) (long : 35 ≤ length buf) where
  decode_record-body : decode_record crc32 loads empty buf ≡ decode_body crc32 loads empty buf
  unfolding decode_record
  decode_record-body =
      let enough : ltb (length buf) record_header_size ≡ false = ground arith in
      let known : (str_eq (take 4 buf) aof_magic && read_word (field_at 4 1 buf) == 1) ≡ true =
        ground (arith, k.magic, k.version) in
      rw (enough, decode_record) (rw known refl)

  -- A whole header that promises more bytes than there are is a partial record.
  pub decode_record-partial :
      length buf < 35 + meta_len + payload_len → decode_record crc32 loads empty buf ≡ partial
  unfolding decode_body
  decode_record-partial short =
      let wants : ltb (length buf)
            (record_header_size + read_word (field_at 23 4 buf) + read_word (field_at 27 4 buf))
          ≡ true =
        rw (k.metadata, k.payload) (ground (arith, short)) in
      decode_record-body ∙ rw (wants, decode_body) refl

module _ {Meta : Type 0} (crc32 : Bytes → ℕ) (loads : Bytes → Option Meta) (empty : Meta)
    (r : AofRecord Meta) (meta_b buf : Bytes)
    (k : Holds (op_id r.op) r.seq (length meta_b) (length r.payload) r.timestamp buf)
    (room : 35 + length meta_b + length r.payload ≤ length buf)
    (body : field_at 35 (length meta_b) buf ≡ meta_b)
    (load : field_at (35 + length meta_b) (length r.payload) buf ≡ r.payload)
    (sum : record_checksum crc32 (take 31 buf) meta_b r.payload ≡ read_word (field_at 31 4 buf))
    (loaded : loads meta_b ≡ some r.metadata) (some_meta : meta_b ≢ []) where
  pub decode_record-complete :
      decode_record crc32 loads empty buf ≡ complete r (35 + length meta_b + length r.payload)
  unfolding decode_body
  decode_record-complete =
      let enough : ltb (length buf) (35 + length meta_b + length r.payload) ≡ false =
        ground (arith, room) in
      let fits : (record_checksum crc32 (take 31 buf) meta_b r.payload
            == read_word (field_at 31 4 buf))
          ≡ true =
        ground (arith, sum) in
      let not_blank : str_eq meta_b [] ≡ false = str_eq_ne meta_b [] some_meta in
      decode_record-body crc32 loads empty (op_id r.op) r.seq (length meta_b) (length r.payload)
        r.timestamp buf k (omega (arith, room))
      ∙ rw (k.metadata, k.payload, decode_body)
          (rw (enough) (
            rw (body, load)
              (rw (fits) (
                rw (k.operation, op_of-op_id r.op)
                  (rw (k.metadata, body, not_blank, loaded)
                    (rw (k.metadata, k.payload, load, k.number, k.time) refl))))))
