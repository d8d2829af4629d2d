-- ===== src/Protocol/Codec.antt =====
-- protocol/codec.py: metadata as JSON text in frames. A JSON value is a parameter, with the values
-- that the codec makes itself; `dumps` and `loads` stand for the JSON text in UTF-8, where `dumps` has
-- no answer for a text that UTF-8 cannot encode (a UnicodeEncodeError), and `as_object` for the test
-- that a value is an object.
use one_open_broker.Prelude.{ℕ, Bool, Option, none, some, [], ◌∷◌, Str, codes, if◌then◌else◌}
use one_open_broker.Dict.{Dict, put}
use one_open_broker.Core.Message.{Bytes}
use one_open_broker.Protocol.Frames.{Frame, encode_frame}

pub record Json (J : Type 0) : Type 0 where
  pub text : Str → J
  pub flag : Bool → J
  pub dumps : Dict J → Option Bytes
  pub loads : Bytes → Option J
  pub as_object : J → Option (Dict J)

-- `{**d, **extra}`
unfoldable pub merge {ℓ} : {J : Type ℓ} → Dict J → Dict J → Dict J
merge d [] = d
merge d ((k, v) ∷ extra) = merge (put k v d) extra

-- A frame without flags, of the version that the library speaks.
abbrev pub plain_frame : ℕ → ℕ → Bytes → Bytes → Frame
plain_frame frame_type request_id metadata payload = record {
  frame_type = frame_type;
  request_id = request_id;
  metadata = metadata;
  payload = payload;
  flags = 0;
  version = 1;
}

-- `x or d`
abbrev pub or_default : Str → Str → Str
or_default [] d = d
or_default (c ∷ s) d = c ∷ s

pub data MetadataError : Type 0 where
  invalid_json not_an_object : MetadataError

pub data Parsed {ℓ} (A : Type ℓ) : Type ℓ where
  parsed : A → Parsed A
  bad : MetadataError → Parsed A

module _ {J : Type 0} (json : Json J) where
  unfoldable pub parse_metadata : Frame → Parsed (Dict J)
  parse_metadata f = elim f.metadata [
    | [] ↦ parsed []
    | b ∷ bs ↦ elim (json.loads (b ∷ bs)) [
      | none ↦ bad invalid_json
      | some value ↦ elim (json.as_object value) [
        | none ↦ bad not_an_object
        | some fields ↦ parsed fields
      ]
    ]
  ]

  unfoldable pub command_fields : Str → Dict J → Dict J
  command_fields cmd extra = merge ((codes "cmd", json.text cmd) ∷ []) extra

  unfoldable pub event_fields : Str → Dict J → Dict J
  event_fields event extra = merge ((codes "event", json.text event) ∷ []) extra

  -- `code or "INTERNAL_ERROR"` and `message or meta["code"]`
  unfoldable pub response_fields : Bool → Dict J → Str → Str → Dict J
  response_fields ok extra code message =
      let meta = merge ((codes "ok", json.flag ok) ∷ []) extra in
      let shown = or_default code (codes "INTERNAL_ERROR") in
      if ok
      then meta
      else put (codes "message") (json.text (or_default message shown))
          (put (codes "code") (json.text shown) meta)

module _ {J : Type 0} (json : Json J) (crc32 : Bytes → ℕ) where
  -- `encode_frame(Frame(..., metadata=_dumps(meta), ...))`; none where one of the two raises.
  unfoldable pub dumped_frame : ℕ → ℕ → Dict J → Bytes → Option Bytes
  dumped_frame frame_type request_id meta payload = elim (json.dumps meta) [
    | none ↦ none
    | some text ↦ encode_frame crc32 (plain_frame frame_type request_id text payload)
  ]

  unfoldable pub command_frame : ℕ → Str → Dict J → Bytes → Option Bytes
  command_frame request_id cmd extra payload =
      dumped_frame 1 request_id (command_fields json cmd extra) payload

  unfoldable pub response_frame : ℕ → Bool → Dict J → Bytes → Str → Str → Option Bytes
  response_frame request_id ok extra payload code message =
      dumped_frame 2 request_id (response_fields json ok extra code message) payload

  unfoldable pub event_frame : Str → Dict J → Bytes → ℕ → Option Bytes
  event_frame event extra payload request_id =
      dumped_frame 3 request_id (event_fields json event extra) payload

unfoldable pub heartbeat_frame : (Bytes → ℕ) → ℕ → Option Bytes
heartbeat_frame crc32 request_id = encode_frame crc32 (plain_frame 4 request_id (codes "{}") [])
