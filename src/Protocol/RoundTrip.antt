-- ===== src/Protocol/RoundTrip.antt =====
-- What `encode_frame` writes, `FrameReader` reads back.
use mathlib.Core.List.{append_assoc}
use one_open_broker.Prelude.{
  Bool-cases, inl, inr, ℕ, ◌+◌, ◌^◌, ◌≤◌, ◌<◌, ◌≡◌, ◌∙◌, refl, ap, true, some, [], ◌++◌, length,
  take, drop, str_eq, arith, length-append, take-append, drop-append, drop-add,
}
use one_open_broker.Core.Message.{Bytes}
use one_open_broker.Protocol.Words.{big_endian, read_word-big_endian}
use one_open_broker.Protocol.Frames.{
  Frame, Header, ok, magic, header_size, header24, is_packable, unpack, decode_header, checksum,
  encode_frame,
}
use one_open_broker.Protocol.Reader.{cut, try_body, try_one}

-- A header with its checksum, and what follows it.
abbrev wire : Frame → ℕ → Bytes → Bytes
wire f crc tail = header24 f ++ (big_endian 4 crc ++ tail)

take-wire : (f : Frame) (crc : ℕ) (tail : Bytes) → take 28 (wire f crc tail) ≡ wire f crc []
unfolding header24 big_endian
take-wire f crc tail = refl

take-wire-header24 : (f : Frame) (crc : ℕ) (tail : Bytes) → take 24 (wire f crc tail) ≡ header24 f
unfolding header24 big_endian
take-wire-header24 f crc tail = refl

drop-wire : (f : Frame) (crc n : ℕ) (tail : Bytes) → drop (28 + n) (wire f crc tail) ≡ drop n tail
unfolding header24 big_endian
drop-wire f crc n tail = drop-add 28 n (wire f crc tail)

length-wire : (f : Frame) (crc : ℕ) (tail : Bytes) → length (wire f crc tail) ≡ 28 + length tail
unfolding header24 big_endian
length-wire f crc tail = omega arith

record Fits (f : Frame) : Type 0 where
  version : f.version < 256
  frame_type : f.frame_type < 256
  flags : f.flags < 65536
  request_id : f.request_id < 2 ^ 64
  metadata : length f.metadata < 2 ^ 32
  payload : length f.payload < 2 ^ 32

is_packable-Fits : (f : Frame) → is_packable f ≡ true → Fits f
unfolding is_packable
is_packable-Fits f h = ground arith

-- The fields are where `unpack` looks for them.
unpack-wire :
    (f : Frame) (crc : ℕ)
    → is_packable f ≡ true
    → crc < 2 ^ 32
    → unpack (wire f crc []) ≡ record {
      frame_type = f.frame_type;
      flags = f.flags;
      request_id = f.request_id;
      meta_len = length f.metadata;
      payload_len = length f.payload;
      crc = crc;
      version = f.version;
    }
unfolding unpack header24 big_endian
unpack-wire f crc h c =
    let fits = is_packable-Fits f h in
    λ i. record {
      frame_type = read_word-big_endian 1 f.frame_type fits.frame_type i;
      flags = read_word-big_endian 2 f.flags fits.flags i;
      request_id = read_word-big_endian 8 f.request_id fits.request_id i;
      meta_len = read_word-big_endian 4 (length f.metadata) fits.metadata i;
      payload_len = read_word-big_endian 4 (length f.payload) fits.payload i;
      crc = read_word-big_endian 4 crc c i;
      version = read_word-big_endian 1 f.version fits.version i;
    }

module _ (f : Frame) (crc : ℕ) (rest : Bytes) where
  abbrev buffer : Bytes
  buffer = wire f crc (f.metadata ++ (f.payload ++ rest))

  metadata-buffer : take (length f.metadata) (drop header_size buffer) ≡ f.metadata
  unfolding header24 big_endian
  metadata-buffer = take-append f.metadata (f.payload ++ rest)

  drop_header-buffer : drop (header_size + length f.metadata) buffer ≡ f.payload ++ rest
  drop_header-buffer =
      drop-wire f crc (length f.metadata) (f.metadata ++ (f.payload ++ rest))
      ∙ drop-append f.metadata (f.payload ++ rest)

  payload-buffer :
      take (length f.payload) (drop (header_size + length f.metadata) buffer) ≡ f.payload
  payload-buffer = rw drop_header-buffer (take-append f.payload rest)

  rest-buffer : drop (header_size + length f.metadata + length f.payload) buffer ≡ rest
  rest-buffer =
      drop-add (header_size + length f.metadata) (length f.payload) buffer
      ∙ ap (drop (length f.payload)) drop_header-buffer
      ∙ drop-append f.payload rest

  length-buffer : length buffer ≡ header_size + length f.metadata + length f.payload + length rest
  length-buffer = omega (
    arith,
    length-wire f crc (f.metadata ++ (f.payload ++ rest)),
    length-append f.metadata (f.payload ++ rest),
    length-append f.payload rest,
  )

  abbrev header : Header
  header = record {
    frame_type = f.frame_type;
    flags = f.flags;
    request_id = f.request_id;
    meta_len = length f.metadata;
    payload_len = length f.payload;
    crc = crc;
    version = f.version;
  }

  decode_header-buffer :
      is_packable f ≡ true
      → crc < 2 ^ 32
      → f.version ≡ 1
      → decode_header (take header_size buffer) ≡ ok header
  unfolding decode_header
  decode_header-buffer h c v =
      rw (take-wire f crc (f.metadata ++ (f.payload ++ rest)), unpack-wire f crc h c, v)
        (ground (arith, length-wire f crc [], magic_first f crc))
    where
      magic_first : (f : Frame) (crc : ℕ) → str_eq (take 4 (wire f crc [])) magic ≡ true
      magic_first f crc = unfold header24 str_eq in refl

  module _ (crc32 : Bytes → ℕ) (max_size : ℕ)
      (sum : checksum crc32 (header24 f) f.metadata f.payload ≡ crc)
      (small : header_size + length f.metadata + length f.payload ≤ max_size) where
    try_body-buffer : try_body crc32 max_size buffer header ≡ cut f rest
    unfolding try_body
    try_body-buffer =
        rw (metadata-buffer, payload-buffer, rest-buffer, take-wire-header24, sum)
          (ground (arith, length-buffer))

checksum_bound : (crc32 : Bytes → ℕ) (h m p : Bytes) → checksum crc32 h m p < 2 ^ 32
unfolding checksum
checksum_bound crc32 h m p = omega arith

-- What a frame that can be packed is written as.
encode_frame-wire :
    (crc32 : Bytes → ℕ) (f : Frame) (bytes rest : Bytes)
    → encode_frame crc32 f ≡ some bytes
    → (is_packable f ≡ true)
      × (bytes ++ rest ≡ buffer f (checksum crc32 (header24 f) f.metadata f.payload) rest)
unfolding encode_frame
encode_frame-wire crc32 f bytes rest h = elim (Bool-cases (is_packable f)) [
  | inr no_room ↦ absurd (ground arith)
  | inl room ↦
      let crc = checksum crc32 (header24 f) f.metadata f.payload in
      let same : bytes ≡ wire f crc (f.metadata ++ f.payload) = ground arith in
      (
        room,
        ap (λ (bs : Bytes). bs ++ rest) same
            ∙ append_assoc (header24 f) (big_endian 4 crc ++ (f.metadata ++ f.payload)) rest
            ∙ ap (◌++◌ (header24 f)) (
                append_assoc (big_endian 4 crc) (f.metadata ++ f.payload) rest
                ∙ ap (◌++◌ (big_endian 4 crc)) (append_assoc f.metadata f.payload rest)),
      )
]

-- An encoded frame within the size limit is cut off the buffer as it was, whatever follows it.
pub try_one-encode_frame :
    (crc32 : Bytes → ℕ) (max_size : ℕ) (f : Frame) (bytes rest : Bytes)
    → encode_frame crc32 f ≡ some bytes
    → f.version ≡ 1
    → header_size + length f.metadata + length f.payload ≤ max_size
    → try_one crc32 max_size (bytes ++ rest) ≡ cut f rest
unfolding try_one
try_one-encode_frame crc32 max_size f bytes rest h v small =
    let crc = checksum crc32 (header24 f) f.metadata f.payload in
    let (room, same) = encode_frame-wire crc32 f bytes rest h in
    rw (same, decode_header-buffer f crc rest room (checksum_bound crc32 _ _ _) v, try_one)
      (ground
        (arith, length-buffer f crc rest, try_body-buffer f crc rest crc32 max_size refl small))
