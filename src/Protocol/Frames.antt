-- ===== src/Protocol/Frames.antt =====
-- `Frame`, `encode_frame` and `decode_header`. `crc32` stands for `zlib.crc32`.
use one_open_broker.Prelude.{
  ℕ, ◌%◌, ◌^◌, Bool, ◌&&◌, Option, none, some, ◌++◌, if◌then◌else◌, length, take, drop, ltb, ◌==◌,
  str_eq, codes,
}
use one_open_broker.Core.Message.{Bytes}
use one_open_broker.Protocol.Words.{big_endian, read_word}

abbrev pub magic : Bytes
magic = codes "OOB1"

abbrev pub header_size : ℕ
header_size = 28

pub record Frame : Type 0 where
  pub frame_type : ℕ
  pub request_id : ℕ
  pub metadata : Bytes
  pub payload : Bytes
  pub flags : ℕ
  pub version : ℕ

pub data ErrorCode : Type 0 where
  frame_too_large truncated_header bad_magic unsupported_version checksum_mismatch : ErrorCode

pub record Header : Type 0 where
  pub frame_type : ℕ
  pub flags : ℕ
  pub request_id : ℕ
  pub meta_len : ℕ
  pub payload_len : ℕ
  pub crc : ℕ
  pub version : ℕ

pub data Decoded {ℓ} (A : Type ℓ) : Type ℓ where
  ok : A → Decoded A
  fail : ErrorCode → Decoded A

-- The first 24 bytes, which do not depend on the checksum.
unfoldable pub header24 : Frame → Bytes
header24 f =
    magic
    ++ (big_endian 1 f.version
        ++ (big_endian 1 f.frame_type
            ++ (big_endian 2 f.flags
                ++ (big_endian 8 f.request_id
                    ++ (big_endian 4 (length f.metadata) ++ big_endian 4 (length f.payload))))))

-- Whether `struct.pack` accepts the fields; it raises `struct.error` otherwise.
unfoldable pub is_packable : Frame → Bool
is_packable f =
    ltb f.version (2 ^ 8)
    && (ltb f.frame_type (2 ^ 8)
        && (ltb f.flags (2 ^ 16)
            && (ltb f.request_id (2 ^ 64)
                && (ltb (length f.metadata) (2 ^ 32) && ltb (length f.payload) (2 ^ 32)))))

-- `header[a : a + n]`
unfoldable pub field_at : ℕ → ℕ → Bytes → Bytes
field_at a n header = take n (drop a header)

-- `HEADER_STRUCT.unpack(header[:HEADER_SIZE])` from the fifth byte on.
unfoldable pub unpack : Bytes → Header
unfolding field_at
unpack header = record {
  frame_type = read_word (field_at 5 1 header);
  flags = read_word (field_at 6 2 header);
  request_id = read_word (field_at 8 8 header);
  meta_len = read_word (field_at 16 4 header);
  payload_len = read_word (field_at 20 4 header);
  crc = read_word (field_at 24 4 header);
  version = read_word (field_at 4 1 header);
}

unfoldable pub decode_header : Bytes → Decoded Header
decode_header header =
    if ltb (length header) header_size
    then fail truncated_header
    else if str_eq (take 4 header) magic
    then (if (unpack header).version == 1 then ok (unpack header) else fail unsupported_version)
    else fail bad_magic

module _ (crc32 : Bytes → ℕ) where
  unfoldable pub checksum : Bytes → Bytes → Bytes → ℕ
  checksum header metadata payload = crc32 (header ++ (metadata ++ payload)) % 2 ^ 32

  -- `none` is the `struct.error`.
  unfoldable pub encode_frame : Frame → Option Bytes
  encode_frame f =
      if is_packable f
      then some (
          header24 f
          ++ (big_endian 4 (checksum (header24 f) f.metadata f.payload)
              ++ (f.metadata ++ f.payload)))
      else none
