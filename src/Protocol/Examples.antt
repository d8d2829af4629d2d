-- ===== src/Protocol/Examples.antt =====
-- Frames at concrete inputs. The sum of the bytes stands for the checksum.
use one_open_broker.Prelude.{
  ℕ, ◌+◌, ◌≡◌, ◌≢◌, refl, none, some, [], ◌∷◌, ◌++◌, take, drop, str_eq, arith,
}
use one_open_broker.Core.Message.{Bytes}
use one_open_broker.Protocol.Words.{big_endian, read_from, read_word}
use one_open_broker.Protocol.Frames.{
  Frame, ok, header24, is_packable, field_at, unpack, decode_header, checksum, encode_frame,
}
use one_open_broker.Protocol.Reader.{
  FrameReader, new_reader, cut, try_body, try_one, feed_fuel, feed,
}
use one_open_broker.Protocol.RoundTrip.{try_one-encode_frame}
use one_open_broker.Protocol.Stream.{read_before, feed_answers, feed-append}

abbrev sum : Bytes → ℕ
sum [] = 0
sum (b ∷ bs) = b + sum bs

abbrev ping : Frame
ping = record {
  frame_type = 1;
  request_id = 7;
  metadata = 123 ∷ 125 ∷ [];
  payload = 9 ∷ [];
  flags = 0;
  version = 1;
}

abbrev ping_bytes : Bytes
ping_bytes = elim (encode_frame sum ping) [ none ↦ [] | some bytes ↦ bytes ]

encodes : encode_frame sum ping ≡ some ping_bytes
unfolding encode_frame is_packable checksum header24 big_endian
encodes = refl

try_one_example : try_one sum 100 (ping_bytes ++ 1 ∷ 2 ∷ []) ≡ cut ping (1 ∷ 2 ∷ [])
try_one_example =
    try_one-encode_frame sum 100 ping ping_bytes (1 ∷ 2 ∷ []) encodes refl (omega arith)

feed_answers_example : (feed sum ping_bytes (new_reader 100)).1 ≢ none
feed_answers_example = feed_answers sum ping_bytes (new_reader 100)

abbrev half_read : FrameReader
half_read = record { max_frame_size = 100; buffer = take 30 ping_bytes; closed_error = none }

reads_half : feed sum (take 30 ping_bytes) (new_reader 100) ≡ (half_read, some (ok []))
unfolding feed feed_fuel try_one try_body decode_header unpack field_at read_word read_from str_eq
    encode_frame is_packable checksum header24 big_endian
reads_half = refl

feed-append_example :
    feed sum (take 30 ping_bytes ++ drop 30 ping_bytes) (new_reader 100)
    ≡ read_before [] (feed sum (drop 30 ping_bytes) half_read)
feed-append_example =
    feed-append sum (take 30 ping_bytes) (drop 30 ping_bytes) (new_reader 100) half_read [] refl
      reads_half
