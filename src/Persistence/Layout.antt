-- ===== src/Persistence/Layout.antt =====
-- Where `decode_record` finds the fields of a record that `encode_record` wrote.
use one_open_broker.Prelude.{
  ℕ, ◌+◌, ◌^◌, ◌<◌, ◌≡◌, refl, true, [], ◌∷◌, ◌++◌, length, take, drop, str_eq, arith, drop-add,
}
use one_open_broker.Core.Message.{Bytes}
use one_open_broker.Protocol.Words.{big_endian, read_word, read_word-big_endian}
use one_open_broker.Protocol.Frames.{field_at}
use one_open_broker.Persistence.Records.{Op, op_id, aof_magic, record_header}

-- The fields of the header, as `decode_record` reads them from a buffer.
pub record Holds (op seq meta_len payload_len : ℕ) (timestamp : Bytes) (buf : Bytes) : Type 0 where
  pub magic : str_eq (take 4 buf) aof_magic ≡ true
  pub version : read_word (field_at 4 1 buf) ≡ 1
  pub operation : read_word (field_at 5 2 buf) ≡ op
  pub number : read_word (field_at 7 8 buf) ≡ seq
  pub time : field_at 15 8 buf ≡ timestamp
  pub metadata : read_word (field_at 23 4 buf) ≡ meta_len
  pub payload : read_word (field_at 27 4 buf) ≡ payload_len

op_id-small : (op : Op) → op_id op < 65536
unfolding op_id
op_id-small op = ground arith

-- A header whose time stamp has eight bytes, its checksum, and what follows.
module _ (op : Op) (seq meta_len payload_len crc a b c d e f g h : ℕ) (tail : Bytes) where
  abbrev pub eight : Bytes
  eight = a ∷ b ∷ c ∷ d ∷ e ∷ f ∷ g ∷ h ∷ []

  abbrev pub written : Bytes
  written = record_header op seq eight meta_len payload_len ++ (big_endian 4 crc ++ tail)

  pub take-written : take 31 written ≡ record_header op seq eight meta_len payload_len
  unfolding record_header big_endian
  take-written = refl

  pub drop-written : (n : ℕ) → drop (35 + n) written ≡ drop n tail
  unfolding record_header big_endian
  drop-written n = drop-add 35 n written

  pub length-written : length written ≡ 35 + length tail
  unfolding record_header big_endian
  length-written = omega arith

  pub crc-written : crc < 2 ^ 32 → read_word (field_at 31 4 written) ≡ crc
  unfolding record_header big_endian field_at
  crc-written less = read_word-big_endian 4 crc less

  pub Holds-written :
      seq < 2 ^ 64
      → meta_len < 2 ^ 32
      → payload_len < 2 ^ 32
      → Holds (op_id op) seq meta_len payload_len eight written
  unfolding record_header big_endian field_at str_eq
  Holds-written s m p = record {
    magic = refl;
    version = read_word-big_endian 1 1 (omega arith);
    operation = read_word-big_endian 2 (op_id op) (op_id-small op);
    number = read_word-big_endian 8 seq s;
    time = refl;
    metadata = read_word-big_endian 4 meta_len m;
    payload = read_word-big_endian 4 payload_len p;
  }
