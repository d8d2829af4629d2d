-- ===== src/Persistence/Whole.antt =====
-- The bytes of one record that was appended: they are read back, and a proper beginning of them is
-- told apart.
use mathlib.Core.List.{append_assoc, append-nil}
use mathlib.Core.Path.{subst}
use one_open_broker.Prelude.{
  ℕ, suc, ◌+◌, ◌^◌, ◌≤◌, ◌<◌, ◌≡◌, ◌≢◌, ◌∙◌, refl, ap, sym, ◌&&◌, Option, some, [], ◌∷◌, ◌++◌,
  length, take, arith, ltb, length-append, take-append, drop-append, Bool-cases, inl, inr,
}
use one_open_broker.Core.Message.{Bytes}
use one_open_broker.Protocol.Words.{big_endian, read_word}
use one_open_broker.Protocol.Frames.{field_at}
use one_open_broker.Persistence.Records.{
  op_id, AofRecord, partial, complete, record_header, record_checksum, encode_record, decode_record,
}
use one_open_broker.Persistence.Layout.{
  Holds, written, take-written, drop-written, length-written, crc-written, Holds-written,
}
use one_open_broker.Persistence.Codec.{Holds-prefix, decode_record-partial, decode_record-complete}

uncons :
    (n : ℕ) (t : Bytes) → length t ≡ suc n → (a : ℕ) × (s : Bytes) × (t ≡ a ∷ s) × (length s ≡ n)
uncons n [] h = absurd (omega arith)
uncons n (a ∷ s) h = (a, s, refl, omega arith)

nil-of-length : (t : Bytes) → length t ≡ 0 → t ≡ []
nil-of-length [] h = refl
nil-of-length (a ∷ t) h = absurd (omega arith)

length-pos : (q : Bytes) → q ≢ [] → 0 < length q
length-pos [] n = absurd (n refl)
length-pos (b ∷ q) n = omega arith

-- The time stamp has eight bytes, as a double of `struct` has.
abbrev pub HasTime {ℓ} : {Meta : Type ℓ} → AofRecord Meta → Type 0
HasTime r = length r.timestamp ≡ 8

module _ {Meta : Type 0} (crc32 : Bytes → ℕ) (dumps : Meta → Bytes) (loads : Bytes → Option Meta)
    (empty : Meta) (loads_dumps : (d : Meta) → loads (dumps d) ≡ some d)
    (dumps_some : (d : Meta) → dumps d ≢ []) where
  -- A record that can be packed, its time stamp byte by byte.
  module _ (r : AofRecord Meta) (a b c d e f g h : ℕ)
      (time : r.timestamp ≡ a ∷ b ∷ c ∷ d ∷ e ∷ f ∷ g ∷ h ∷ []) where
    abbrev header : Bytes → Bytes
    header t = record_header r.op r.seq t (length (dumps r.metadata)) (length r.payload)

    abbrev crc : Bytes → ℕ
    crc t = record_checksum crc32 (header t) (dumps r.metadata) r.payload

    abbrev time_bytes : Bytes
    time_bytes = a ∷ b ∷ c ∷ d ∷ e ∷ f ∷ g ∷ h ∷ []

    abbrev buffer : Bytes → Bytes
    buffer rest =
        written r.op r.seq (length (dumps r.metadata)) (length r.payload) (crc time_bytes) a b c d e
          f g h (dumps r.metadata ++ (r.payload ++ rest))

    record Packed (bytes : Bytes) : Type 0 where
      seq : r.seq < 2 ^ 64
      metadata : length (dumps r.metadata) < 2 ^ 32
      payload : length r.payload < 2 ^ 32
      wire : (rest : Bytes) → bytes ++ rest ≡ buffer rest

    encode_record-Packed : (bytes : Bytes) → encode_record crc32 dumps r ≡ some bytes → Packed bytes
    unfolding encode_record
    encode_record-Packed bytes k =
        let m = dumps r.metadata in
        elim (Bool-cases
          (ltb r.seq (2 ^ 64) && (ltb (length m) (2 ^ 32) && ltb (length r.payload) (2 ^ 32)))) [
            | inr no_room ↦ absurd (ground arith)
            | inl room ↦
                let same : bytes
                    ≡ header r.timestamp ++ (big_endian 4 (crc r.timestamp) ++ (m ++ r.payload)) =
                  ground arith in
                record {
                  seq = ground arith;
                  metadata = ground arith;
                  payload = ground arith;
                  wire = λ rest.
                      ap (λ (x : Bytes). x ++ rest) same
                      ∙ append_assoc (header r.timestamp)
                          (big_endian 4 (crc r.timestamp) ++ (m ++ r.payload)) rest
                      ∙ ap (◌++◌ (header r.timestamp)) (
                          append_assoc (big_endian 4 (crc r.timestamp)) (m ++ r.payload) rest
                          ∙ ap (◌++◌ (big_endian 4 (crc r.timestamp)))
                              (append_assoc m r.payload rest))
                      ∙ ap
                          (λ (t : Bytes).
                            header t ++ (big_endian 4 (crc t) ++ (m ++ (r.payload ++ rest))))
                          time;
                }
          ]

    module _ (bytes rest : Bytes) (k : Packed bytes) where
      Holds-buffer :
          Holds
            (op_id r.op)
            r.seq
            (length (dumps r.metadata))
            (length r.payload)
            r.timestamp
            (bytes ++ rest)
      Holds-buffer =
          rw (k.wire rest, time)
            (Holds-written r.op r.seq (length (dumps r.metadata)) (length r.payload)
              (crc time_bytes) a b c d e f g h (dumps r.metadata ++ (r.payload ++ rest)) k.seq
              k.metadata k.payload)

      length-buffer :
          length (bytes ++ rest) ≡ 35 + length (dumps r.metadata) + length r.payload + length rest
      length-buffer = omega (
        arith,
        ap length (k.wire rest),
        length-written r.op r.seq (length (dumps r.metadata)) (length r.payload) (crc time_bytes) a
            b c d e f g h (dumps r.metadata ++ (r.payload ++ rest)),
        length-append (dumps r.metadata) (r.payload ++ rest),
        length-append r.payload rest,
      )

      metadata-buffer : field_at 35 (length (dumps r.metadata)) (bytes ++ rest) ≡ dumps r.metadata
      unfolding field_at
      metadata-buffer =
          let m = dumps r.metadata in
          rw (k.wire rest) (
            ap (take (length m)) (
              drop-written r.op r.seq (length m) (length r.payload) (crc time_bytes) a b c d e f g h
                (m ++ (r.payload ++ rest)) 0)
            ∙ take-append m (r.payload ++ rest))

      payload-buffer :
          field_at (35 + length (dumps r.metadata)) (length r.payload) (bytes ++ rest) ≡ r.payload
      unfolding field_at
      payload-buffer =
          let m = dumps r.metadata in
          rw (k.wire rest) (
            ap (take (length r.payload)) (
              drop-written r.op r.seq (length m) (length r.payload) (crc time_bytes) a b c d e f g h
                (m ++ (r.payload ++ rest)) (length m)
              ∙ drop-append m (r.payload ++ rest))
            ∙ take-append r.payload rest)

      crc-buffer :
          record_checksum crc32 (take 31 (bytes ++ rest)) (dumps r.metadata) r.payload
          ≡ read_word (field_at 31 4 (bytes ++ rest))
      crc-buffer =
          let m = dumps r.metadata in
          let ml = length m in
          let pl = length r.payload in
          rw (k.wire rest) (
            ap (λ (x : Bytes). record_checksum crc32 x m r.payload)
              (take-written r.op r.seq ml pl (crc time_bytes) a b c d e f g h
                (m ++ (r.payload ++ rest)))
            ∙ sym (
                crc-written r.op r.seq ml pl (crc time_bytes) a b c d e f g h
                  (m ++ (r.payload ++ rest)) (unfold record_checksum in omega arith)))

      decode_record-whole :
          decode_record crc32 loads empty (bytes ++ rest)
          ≡ complete r (35 + length (dumps r.metadata) + length r.payload)
      decode_record-whole =
          decode_record-complete crc32 loads empty r (dumps r.metadata) (bytes ++ rest) Holds-buffer
            (omega (arith, length-buffer)) metadata-buffer payload-buffer crc-buffer
            (loads_dumps r.metadata) (dumps_some r.metadata)

    decode_record-torn :
        (bytes p q : Bytes)
        → Packed bytes
        → bytes ≡ p ++ q
        → q ≢ []
        → decode_record crc32 loads empty p ≡ partial
    unfolding decode_record
    decode_record-torn bytes p q k cut more = elim (Bool-cases (ltb (length p) 35)) [
      | inl short ↦ rw (short, decode_record) refl
      | inr long ↦
          let enough : 35 ≤ length p = ground arith in
          let whole : bytes ++ [] ≡ p ++ q = append-nil bytes ∙ cut in
          let held : Holds (op_id r.op) r.seq (length (dumps r.metadata)) (length r.payload)
              r.timestamp (p ++ q) =
            subst
              (λ (x : Bytes).
                Holds (op_id r.op) r.seq (length (dumps r.metadata)) (length r.payload) r.timestamp
                  x)
              whole (Holds-buffer bytes [] k) in
          decode_record-partial crc32 loads empty (op_id r.op) r.seq (length (dumps r.metadata))
            (length r.payload) r.timestamp p (Holds-prefix _ _ _ _ _ p q enough held) enough
            (omega (
              arith,
              length-buffer bytes [] k,
              ap length whole,
              length-append p q,
              length-pos q more,
            ))
    ]

  -- What there is to know of the bytes of a record.
  pub record IsWritten (r : AofRecord Meta) (bytes : Bytes) : Type 0 where
    pub size : ℕ
    pub size_eq : length bytes ≡ size
    pub size_pos : 0 < size
    pub whole : (rest : Bytes) → decode_record crc32 loads empty (bytes ++ rest) ≡ complete r size
    pub torn : (p q : Bytes) → bytes ≡ p ++ q → q ≢ [] → decode_record crc32 loads empty p ≡ partial

  pub encode_record-IsWritten :
      (r : AofRecord Meta) (bytes : Bytes)
      → HasTime r
      → encode_record crc32 dumps r ≡ some bytes
      → IsWritten r bytes
  encode_record-IsWritten r bytes time h =
      let (b0, t1, e0, l1) = uncons 7 r.timestamp time in
      let (b1, t2, e1, l2) = uncons 6 t1 l1 in
      let (b2, t3, e2, l3) = uncons 5 t2 l2 in
      let (b3, t4, e3, l4) = uncons 4 t3 l3 in
      let (b4, t5, e4, l5) = uncons 3 t4 l4 in
      let (b5, t6, e5, l6) = uncons 2 t5 l5 in
      let (b6, t7, e6, l7) = uncons 1 t6 l6 in
      let (b7, t8, e7, l8) = uncons 0 t7 l7 in
      let nothing : t8 ≡ [] = nil-of-length t8 l8 in
      let split : r.timestamp ≡ b0 ∷ b1 ∷ b2 ∷ b3 ∷ b4 ∷ b5 ∷ b6 ∷ b7 ∷ [] =
        e0
        ∙ ap (◌∷◌ b0) (
            e1
            ∙ ap (◌∷◌ b1) (
                e2
                ∙ ap (◌∷◌ b2) (
                    e3
                    ∙ ap (◌∷◌ b3) (
                        e4
                        ∙ ap (◌∷◌ b4)
                            (e5 ∙ ap (◌∷◌ b5) (e6 ∙ ap (◌∷◌ b6) (e7 ∙ ap (◌∷◌ b7) nothing))))))) in
      let k = encode_record-Packed r b0 b1 b2 b3 b4 b5 b6 b7 split bytes h in
      record {
        size = 35 + length (dumps r.metadata) + length r.payload;
        size_eq = omega (
          arith,
          length-buffer r b0 b1 b2 b3 b4 b5 b6 b7 split bytes [] k,
          length-append bytes [],
        );
        size_pos = omega arith;
        whole = λ rest. decode_record-whole r b0 b1 b2 b3 b4 b5 b6 b7 split bytes rest k;
        torn = λ p q. decode_record-torn r b0 b1 b2 b3 b4 b5 b6 b7 split bytes p q k;
      }
