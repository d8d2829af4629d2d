-- ===== src/Protocol/Reader.antt =====
-- `FrameReader`: bytes come in as they arrive, frames go out when they are whole.
use one_open_broker.Prelude.{
  ℕ, zero, suc, ◌+◌, Option, none, some, List, [], ◌∷◌, ◌++◌, if◌then◌else◌, length, take, drop,
  ltb, ◌==◌,
}
use one_open_broker.Core.Message.{Bytes}
use one_open_broker.Protocol.Frames.{
  Frame, Header, Decoded, ErrorCode, ok, fail, frame_too_large, checksum_mismatch, header_size,
  decode_header, checksum,
}

pub record FrameReader : Type 0 where
  pub max_frame_size : ℕ
  pub buffer : Bytes
  pub closed_error : Option ErrorCode

abbrev pub new_reader : ℕ → FrameReader
new_reader size = record { max_frame_size = size; buffer = []; closed_error = none }

-- What `_try_one` does: it waits for more bytes, cuts a frame off, or raises. It raises a checksum
-- error after it has cut the frame off.
pub data Attempt : Type 0 where
  wait : Attempt
  cut : Frame → Bytes → Attempt
  raise : ErrorCode → Bytes → Attempt

module _ (crc32 : Bytes → ℕ) where
  -- The part that follows the header. The lengths are unsigned, so they are never negative.
  unfoldable pub try_body : ℕ → Bytes → Header → Attempt
  try_body max_size buf h =
      let total = header_size + h.meta_len + h.payload_len in
      if ltb max_size total
      then raise frame_too_large buf
      else if ltb (length buf) total
      then wait
      else (let metadata = take h.meta_len (drop header_size buf) in
          let payload = take h.payload_len (drop (header_size + h.meta_len) buf) in
          if checksum crc32 (take 24 buf) metadata payload == h.crc
          then cut
              (record {
                frame_type = h.frame_type;
                request_id = h.request_id;
                metadata = metadata;
                payload = payload;
                flags = h.flags;
                version = h.version;
              })
              (drop total buf)
          else raise checksum_mismatch (drop total buf))

  unfoldable pub try_one : ℕ → Bytes → Attempt
  try_one max_size buf =
      if ltb (length buf) header_size then wait else elim (decode_header (take header_size buf)) [
        | fail code ↦ raise code buf
        | ok h ↦ try_body max_size buf h
      ]

  -- The loop of `feed`, with fuel: each frame takes at least the header off the buffer. An error
  -- loses the frames that were read in the same call.
  unfoldable pub feed_fuel : ℕ → FrameReader → FrameReader × Option (Decoded (List Frame))
  feed_fuel zero r = (r, none)
  feed_fuel (suc fuel) r = elim (try_one r.max_frame_size r.buffer) [
    | wait ↦ (r, some (ok []))
    | raise code rest ↦ (record r { buffer = rest; closed_error = some code }, some (fail code))
    | cut f rest ↦
        let (r', more) = feed_fuel fuel (record r { buffer = rest }) in
        (
          r',
          elim more [
            | none ↦ none
            | some (fail code) ↦ some (fail code)
            | some (ok fs) ↦ some (ok (f ∷ fs))
          ],
        )
  ]

  unfoldable pub feed : Bytes → FrameReader → FrameReader × Option (Decoded (List Frame))
  feed bytes r = elim r.closed_error [
    | some code ↦ (r, some (fail code))
    | none ↦
        let filled = record r { buffer = r.buffer ++ bytes } in
        feed_fuel (suc (length filled.buffer)) filled
  ]
