-- ===== src/Protocol/Messages.antt =====
-- A command or a response on its way: encoded by the codec, read by the reader, parsed again.
use one_open_broker.Prelude.{
  ℕ, suc, ◌+◌, ◌≤◌, ◌≡◌, ◌≢◌, ◌∙◌, refl, ap, sym, false, none, some, [], ◌∷◌, Str, codes, length,
  List-cases, inl, inr, str_eq, str_eq_iff, str_eq_refl, Option, arith, bit, if◌then◌else◌,
}
use mathlib.Core.List.{append-nil}
use one_open_broker.Dict.{
  Dict, get, put, has, count, keys, UniqueKeys, UniqueKeys-put, get-put, has-is_some,
}
use one_open_broker.Core.Message.{Bytes}
use one_open_broker.Protocol.Frames.{Frame, ok, header_size, encode_frame}
use one_open_broker.Protocol.Reader.{FrameReader, new_reader, cut, wait, try_one, feed_fuel, feed}
use one_open_broker.Protocol.RoundTrip.{try_one-encode_frame}
use one_open_broker.Protocol.Codec.{
  dumped_frame, Json, merge, plain_frame, or_default, parsed, parse_metadata, command_fields,
  response_fields, command_frame, response_frame,
}

try_one-empty : (crc32 : Bytes → ℕ) (size : ℕ) → try_one crc32 size [] ≡ wait
unfolding try_one
try_one-empty crc32 size = refl

or_default-ne : (s d : Str) → d ≢ [] → or_default s d ≢ []
or_default-ne [] d n = n
or_default-ne (c ∷ s) d n = λ e. cc

-- `x` where it has a value, or else `y`.
abbrev pub or_else : {A : Type 0} → Option A → Option A → Option A
or_else none y = y
or_else (some a) y = some a

abbrev filled : ℕ → Bytes → FrameReader
filled size bytes = record { max_frame_size = size; buffer = bytes; closed_error = none }

feed_fuel_one :
    (crc32 : Bytes → ℕ) (size fuel : ℕ) (f : Frame) (bytes : Bytes)
    → try_one crc32 size bytes ≡ cut f []
    → feed_fuel crc32 (suc (suc fuel)) (filled size bytes) ≡ (new_reader size, some (ok (f ∷ [])))
unfolding feed_fuel
feed_fuel_one crc32 size fuel f bytes first =
    rw (first, feed_fuel) (rw (try_one-empty crc32 size, feed_fuel) refl)

-- A new reader that is fed the bytes of one frame gives that frame, and keeps nothing.
feed_one :
    (crc32 : Bytes → ℕ) (size : ℕ) (f : Frame) (bytes : Bytes)
    → encode_frame crc32 f ≡ some bytes
    → f.version ≡ 1
    → header_size + length f.metadata + length f.payload ≤ size
    → feed crc32 bytes (new_reader size) ≡ (new_reader size, some (ok (f ∷ [])))
unfolding feed
feed_one crc32 size f bytes h v small =
    let first : try_one crc32 size bytes ≡ cut f [] =
      ap (try_one crc32 size) (sym (append-nil bytes))
      ∙ try_one-encode_frame crc32 size f bytes [] h v small in
    elim (List-cases bytes) [
      | inl blank ↦
          absurd (cc (try_one-empty crc32 size, ap (try_one crc32 size) (sym blank) ∙ first))
      | inr (b, bs, some_bytes) ↦
          ap (λ (n : ℕ). feed_fuel crc32 (suc n) (filled size bytes)) (ap length some_bytes)
          ∙ feed_fuel_one crc32 size (length bs) f bytes first
    ]

has-count : {J : Type 0} (k : Str) (d : Dict J) → bit (has k d) ≤ count k (keys d)
unfolding has count keys
has-count k [] = omega arith
has-count k ((j, v) ∷ d) = ground (arith, has-count k d)

-- What `{**d, **extra}` has under a key, where `extra` has no key twice.
get-merge :
    {J : Type 0} (k : Str) (d extra : Dict J)
    → UniqueKeys extra
    → get k (merge d extra) ≡ or_else (get k extra) (get k d)
unfolding merge get has count keys
get-merge k d [] u = refl
get-merge {J} k d ((j, v) ∷ extra) u =
    let rest : UniqueKeys extra = λ i. ground (arith, u i, has-count i extra) in
    ground (
      arith,
      get-merge k (put j v d) extra rest,
      get-put j k v d,
      str_eq_iff j k,
      u j,
      str_eq_refl j,
      has-count j extra,
      has-is_some j extra,
    )

module _ {J : Type 0} (json : Json J) (crc32 : Bytes → ℕ)
    (loads_dumps : (d : Dict J) (text : Bytes)
      → UniqueKeys d
      → json.dumps d ≡ some text
      → (value : J) × (json.loads text ≡ some value) × (json.as_object value ≡ some d))
    (dumps_some : (d : Dict J) → json.dumps d ≢ some []) where
  parse_metadata-dumps :
      (frame_type request_id : ℕ) (d : Dict J) (text payload : Bytes)
      → UniqueKeys d
      → json.dumps d ≡ some text
      → parse_metadata json (plain_frame frame_type request_id text payload) ≡ parsed d
  unfolding parse_metadata
  parse_metadata-dumps frame_type request_id d [] payload u dumped = absurd (dumps_some d dumped)
  parse_metadata-dumps frame_type request_id d (b ∷ bs) payload u dumped =
      let (value, loaded, is_object) = loads_dumps d (b ∷ bs) u dumped in
      rw (loaded) (rw (is_object) refl)

  UniqueKeys-single : (k : Str) (v : J) → UniqueKeys ((k, v) ∷ [])
  unfolding has count keys put
  UniqueKeys-single k v = UniqueKeys-put k v [] (λ j. refl)

  UniqueKeys-merge : (d extra : Dict J) → UniqueKeys d → UniqueKeys (merge d extra)
  unfolding merge
  UniqueKeys-merge d [] u = u
  UniqueKeys-merge d ((k, v) ∷ extra) u =
      UniqueKeys-merge (put k v d) extra (UniqueKeys-put k v d u)

  -- A frame with a dictionary in it comes out of a new reader, and `parse_metadata` reads it.
  dumped_frame_arrives :
      (size frame_type request_id : ℕ) (d : Dict J) (text payload bytes : Bytes)
      → UniqueKeys d
      → json.dumps d ≡ some text
      → dumped_frame json crc32 frame_type request_id d payload ≡ some bytes
      → header_size + length text + length payload ≤ size
      → let f = plain_frame frame_type request_id text payload in
        (feed crc32 bytes (new_reader size) ≡ (new_reader size, some (ok (f ∷ []))))
        × (parse_metadata json f ≡ parsed d)
  unfolding dumped_frame
  dumped_frame_arrives size frame_type request_id d text payload bytes u dumped h small =
      let f = plain_frame frame_type request_id text payload in
      let encoded : encode_frame crc32 f ≡ some bytes =
        sym (
          ap
            (λ (x : Option Bytes). elim x as (λ _. Option Bytes) [
              | none ↦ none
              | some t ↦ encode_frame crc32 (plain_frame frame_type request_id t payload)
            ])
            dumped)
        ∙ h in
      (
        feed_one crc32 size f bytes encoded refl small,
        parse_metadata-dumps frame_type request_id d text payload u dumped,
      )

  -- A command that command_frame encodes, within the size limit, comes out of a new reader as one
  -- frame of type 1 with the request id and the payload, and parse_metadata finds in it a dictionary
  -- with exactly the given extra fields and, unless they have a field of that name, the name of the
  -- command under "cmd". JSON text gives back the object that it was made from, and is not empty; the
  -- extra fields have no key twice.
  pub command_arrives :
      (size request_id : ℕ) (cmd : Str) (extra : Dict J) (payload bytes text : Bytes) (f : Frame)
      → UniqueKeys extra
      → command_frame json crc32 request_id cmd extra payload ≡ some bytes
      → json.dumps (command_fields json cmd extra) ≡ some text
      → header_size + length text + length payload ≤ size
      → f ≡ plain_frame 1 request_id text payload
      → (feed crc32 bytes (new_reader size) ≡ (new_reader size, some (ok (f ∷ []))))
        × (fields : Dict J) × (parse_metadata json f ≡ parsed fields)
        × ((k : Str)
            → get k fields
              ≡ or_else
                  (get k extra)
                  (if str_eq (codes "cmd") k then some (json.text cmd) else none))
  unfolding command_frame command_fields get
  command_arrives size request_id cmd extra payload bytes text f once h dumped small same =
      let single = (codes "cmd", json.text cmd) ∷ [] in
      let (arrives, read) =
        dumped_frame_arrives size 1 request_id (command_fields json cmd extra) text payload bytes
          (UniqueKeys-merge single extra (UniqueKeys-single (codes "cmd") (json.text cmd))) dumped h
          small in
      rw same (arrives, command_fields json cmd extra, read, λ k. get-merge k single extra once)

  -- A refusal that response_frame encodes, within the size limit, comes out of a new reader as one
  -- frame of type 2 with the request id and the payload, and its metadata has a code and a message
  -- that are not empty: the given ones, or INTERNAL_ERROR in place of a missing code and the code in
  -- place of a missing message. JSON text gives back the object that it was made from, and is not
  -- empty.
  pub refusal_arrives :
      (size request_id : ℕ) (extra : Dict J) (payload bytes text : Bytes) (code message : Str)
      (f : Frame)
      → response_frame json crc32 request_id false extra payload code message ≡ some bytes
      → json.dumps (response_fields json false extra code message) ≡ some text
      → header_size + length text + length payload ≤ size
      → f ≡ plain_frame 2 request_id text payload
      → (feed crc32 bytes (new_reader size) ≡ (new_reader size, some (ok (f ∷ []))))
        × (parse_metadata json f ≡ parsed (response_fields json false extra code message))
        × (get (codes "code") (response_fields json false extra code message)
            ≡ some (json.text (or_default code (codes "INTERNAL_ERROR"))))
        × (get (codes "message") (response_fields json false extra code message)
            ≡ some (json.text (or_default message (or_default code (codes "INTERNAL_ERROR")))))
        × (or_default code (codes "INTERNAL_ERROR") ≢ [])
        × (or_default message (or_default code (codes "INTERNAL_ERROR")) ≢ [])
  unfolding response_frame response_fields str_eq
  refusal_arrives size request_id extra payload bytes text code message f h dumped small same =
      let meta = merge ((codes "ok", json.flag false) ∷ []) extra in
      let shown = or_default code (codes "INTERNAL_ERROR") in
      let coded = put (codes "code") (json.text shown) meta in
      let fields = response_fields json false extra code message in
      let named = or_default-ne code (codes "INTERNAL_ERROR") (λ e. cc) in
      let (arrives, read) =
        dumped_frame_arrives size 2 request_id fields text payload bytes
          (UniqueKeys-put _ _ coded (
            UniqueKeys-put _ _ meta (
              UniqueKeys-merge ((codes "ok", json.flag false) ∷ []) extra
                (UniqueKeys-single (codes "ok") (json.flag false)))))
          dumped h small in
      rw same (
        arrives,
        read,
        rw (get-put, get-put) refl,
        rw (get-put) refl,
        named,
        or_default-ne message shown named,
      )
