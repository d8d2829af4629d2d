-- ===== src/Persistence/Torn.antt =====
-- `read_aof` after a crash: the records that were appended are read back, a torn tail is not.
use mathlib.Core.List.{append_assoc}
use one_open_broker.Prelude.{
  ℕ, zero, suc, ◌+◌, ◌≤◌, ◌≡◌, ◌≢◌, ◌∙◌, refl, ap, sym, Option, none, some, List, [], ◌∷◌, ◌++◌,
  length, drop, arith, length-append, drop-append, Option-cases, inl, inr, All,
}
use one_open_broker.Core.Message.{Bytes}
use one_open_broker.Persistence.Records.{
  AofRecord, partial, encode_record, decode_record, read_fuel, read_aof,
}
use one_open_broker.Persistence.Whole.{HasTime, IsWritten, encode_record-IsWritten}

-- The bytes that appending the records one after the other writes.
unfoldable pub written_log {ℓ} :
    {Meta : Type ℓ} → (Bytes → ℕ) → (Meta → Bytes) → List (AofRecord Meta) → Option Bytes
written_log crc32 dumps [] = some []
written_log crc32 dumps (r ∷ rs) = elim (encode_record crc32 dumps r) [
  | none ↦ none
  | some bytes ↦ elim (written_log crc32 dumps rs) [ none ↦ none | some log ↦ some (bytes ++ log) ]
]

module _ {Meta : Type 0} (crc32 : Bytes → ℕ) (dumps : Meta → Bytes) (loads : Bytes → Option Meta)
    (empty : Meta) (loads_dumps : (d : Meta) → loads (dumps d) ≡ some d)
    (dumps_some : (d : Meta) → dumps d ≢ []) where
  abbrev Written : AofRecord Meta → Bytes → Type 0
  Written = IsWritten crc32 dumps loads empty loads_dumps dumps_some

  read_fuel-step :
      (fuel offset : ℕ) (s : AofRecord Meta) (first rest : Bytes) (rs : List (AofRecord Meta))
      (keep : ℕ)
      → (x : Written s first) → read_fuel crc32 loads empty fuel (offset + x.size) rest ≡ (rs, keep)
      → read_fuel crc32 loads empty (suc fuel) offset (first ++ rest) ≡ (s ∷ rs, keep)
  unfolding read_fuel
  read_fuel-step fuel offset s first rest rs keep x more =
      let left : drop x.size (first ++ rest) ≡ rest =
        ap (λ (n : ℕ). drop n (first ++ rest)) (sym x.size_eq) ∙ drop-append first rest in
      rw (x.whole rest, read_fuel) (rw left (rw more refl))

  read_fuel-torn :
      (fuel offset : ℕ) (p : Bytes)
      → decode_record crc32 loads empty p ≡ partial
      → read_fuel crc32 loads empty fuel offset p ≡ ([], offset)
  unfolding read_fuel
  read_fuel-torn zero offset p torn = refl
  read_fuel-torn (suc fuel) offset p torn = rw (torn, read_fuel) refl

  read_fuel-go :
      (fuel offset : ℕ) (s : AofRecord Meta) (rs : List (AofRecord Meta))
      (first later log p : Bytes)
      → Written s first
      → log ≡ first ++ later
      → length (log ++ p) ≤ fuel
      → ((fuel' offset' : ℕ)
          → length (later ++ p) ≤ fuel'
          → read_fuel crc32 loads empty fuel' offset' (later ++ p) ≡ (rs, offset' + length later))
      → read_fuel crc32 loads empty fuel offset (log ++ p) ≡ (s ∷ rs, offset + length log)
  read_fuel-go fuel offset s rs first later log p x is_log enough more =
      let bytes : log ++ p ≡ first ++ (later ++ p) =
        ap (λ (l : Bytes). l ++ p) is_log ∙ append_assoc first later p in
      let long = length-append first (later ++ p) in
      let total = ap length bytes in
      elim fuel
          as (λ n.
            length (log ++ p) ≤ n
            → read_fuel crc32 loads empty n offset (log ++ p) ≡ (s ∷ rs, offset + length log)) [
              | zero ↦ λ less. absurd (omega (arith, less, total, long, x.size_eq, x.size_pos))
              | suc n ↦ λ less.
                  ap (read_fuel crc32 loads empty (suc n) offset) bytes
                  ∙ read_fuel-step n offset s first (later ++ p) rs (offset + x.size + length later)
                      x
                      (more n (offset + x.size)
                        (omega (arith, less, total, long, x.size_eq, x.size_pos)))
                  ∙ ap (λ (k : ℕ). (s ∷ rs, k))
                      (omega (arith, x.size_eq, ap length is_log, length-append first later))
            ]
        enough

  read_fuel-written :
      (rs : List (AofRecord Meta)) (fuel offset : ℕ) (log p : Bytes)
      → written_log crc32 dumps rs ≡ some log
      → All HasTime rs
      → decode_record crc32 loads empty p ≡ partial
      → length (log ++ p) ≤ fuel
      → read_fuel crc32 loads empty fuel offset (log ++ p) ≡ (rs, offset + length log)
  unfolding written_log
  read_fuel-written [] fuel offset log p h times torn enough =
      let blank : log ≡ [] = ground arith in
      rw blank (read_fuel-torn fuel offset p torn ∙ ap (λ (n : ℕ). ([], n)) (omega arith))
  read_fuel-written (s ∷ rs) fuel offset log p h times torn enough =
      elim (Option-cases (encode_record crc32 dumps s)) [
        | inl bad ↦ absurd (ground arith)
        | inr (first, encoded) ↦ elim (Option-cases (written_log crc32 dumps rs)) [
          | inl bad ↦ absurd (ground arith)
          | inr (later, others) ↦
              let is_log : log ≡ first ++ later = ground arith in
              let x =
                encode_record-IsWritten crc32 dumps loads empty loads_dumps dumps_some s first
                  times.0 encoded in
              read_fuel-go fuel offset s rs first later log p x is_log enough (λ fuel' offset' less.
                read_fuel-written rs fuel' offset' later p others times.1 torn less)
        ]
      ]

  -- After a crash: a file that holds the records one after the other, and then a torn tail, that is a
  -- proper beginning of another record and may be empty, is read as exactly those records, and the
  -- size to keep is where the tail begins. The time stamps have eight bytes each; the JSON text of the
  -- metadata gives it back, and is not empty.
  pub read_aof_torn :
      (rs : List (AofRecord Meta)) (r : AofRecord Meta) (log bytes p q : Bytes)
      → written_log crc32 dumps rs ≡ some log
      → All HasTime rs
      → encode_record crc32 dumps r ≡ some bytes
      → HasTime r
      → bytes ≡ p ++ q
      → q ≢ []
      → read_aof crc32 loads empty (log ++ p) ≡ (rs, length log)
  unfolding read_aof
  read_aof_torn rs r log bytes p q h times encoded time cut more =
      read_fuel-written rs (length (log ++ p)) 0 log p h times
        ((encode_record-IsWritten crc32 dumps loads empty loads_dumps dumps_some r bytes time
            encoded).torn
          p q cut more)
        (omega arith)
      ∙ ap (λ (n : ℕ). (rs, n)) (omega arith)
