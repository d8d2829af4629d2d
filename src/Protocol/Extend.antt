-- ===== src/Protocol/Extend.antt =====
-- What one attempt to cut a frame off becomes when more bytes follow.
use one_open_broker.Prelude.{
  ℕ, ◌+◌, ◌≤◌, ◌<◌, ◌≡◌, ◌≢◌, refl, ◌++◌, length, take, drop, ltb, arith, length-append,
  length-drop, take-append_le, drop-append_le, Bool-cases, inl, inr, ◌⊎◌,
}
use one_open_broker.Core.Message.{Bytes}
use one_open_broker.Protocol.Frames.{
  Frame, Header, Decoded, ErrorCode, ok, fail, header_size, decode_header,
}
use one_open_broker.Protocol.Reader.{Attempt, wait, cut, raise, try_body, try_one}

Decoded-cases {ℓ} :
    {A : Type ℓ} (d : Decoded A) → ((a : A) × (d ≡ ok a)) ⊎ ((code : ErrorCode) × (d ≡ fail code))
Decoded-cases (ok a) = inl (a, refl)
Decoded-cases (fail code) = inr (code, refl)

-- What an attempt becomes when more bytes follow.
abbrev pub extend : Bytes → Attempt → Attempt
extend more wait = wait
extend more (cut f rest) = cut f (rest ++ more)
extend more (raise code rest) = raise code (rest ++ more)

module _ (crc32 : Bytes → ℕ) (max_size : ℕ) where
  try_body-append :
      (buf more : Bytes) (h : Header)
      → header_size ≤ length buf
      → try_body crc32 max_size buf h ≢ wait
      → try_body crc32 max_size (buf ++ more) h ≡ extend more (try_body crc32 max_size buf h)
  unfolding try_body
  try_body-append buf more h long busy =
      elim (Bool-cases (ltb max_size (header_size + h.meta_len + h.payload_len))) [
        | inl large ↦ ground arith
        | inr small ↦
            elim (Bool-cases (ltb (length buf) (header_size + h.meta_len + h.payload_len))) [
              | inl short ↦ absurd (ground arith)
              | inr whole ↦
                  let total : header_size + h.meta_len + h.payload_len ≤ length buf =
                    ground arith in
                  ground (
                    arith,
                    length-append buf more,
                    take-append_le 24 buf more (omega arith),
                    drop-append_le header_size buf more (omega arith),
                    take-append_le h.meta_len (drop header_size buf) more
                        (omega (arith, length-drop header_size buf)),
                    drop-append_le (header_size + h.meta_len) buf more (omega arith),
                    take-append_le h.payload_len (drop (header_size + h.meta_len) buf) more
                        (omega (arith, length-drop (header_size + h.meta_len) buf)),
                    drop-append_le (header_size + h.meta_len + h.payload_len) buf more
                        (omega arith),
                  )
            ]
      ]

  pub try_one-append :
      (buf more : Bytes)
      → try_one crc32 max_size buf ≢ wait
      → try_one crc32 max_size (buf ++ more) ≡ extend more (try_one crc32 max_size buf)
  unfolding try_one
  try_one-append buf more busy = elim (Bool-cases (ltb (length buf) header_size)) [
    | inl short ↦ absurd (ground arith)
    | inr long ↦
        let enough : header_size ≤ length buf = ground arith in
        elim (Decoded-cases (decode_header (take header_size buf))) [
          | inr (code, e) ↦
              ground (arith, e, take-append_le header_size buf more enough, length-append buf more)
          | inl (h, e) ↦ ground (
            arith,
            e,
            take-append_le header_size buf more enough,
            length-append buf more,
            try_body-append buf more h enough,
          )
        ]
  ]

  -- A frame takes at least its header off the buffer.
  pub try_one_shortens :
      (buf rest : Bytes) (f : Frame)
      → try_one crc32 max_size buf ≡ cut f rest
      → length rest < length buf
  unfolding try_one try_body
  try_one_shortens buf rest f h = elim (Decoded-cases (decode_header (take header_size buf))) [
    | inr (code, e) ↦ absurd (ground (arith, e))
    | inl (d, e) ↦ ground (arith, e, length-drop (header_size + d.meta_len + d.payload_len) buf)
  ]
