-- ===== src/Protocol/MessageExamples.antt =====
-- Messages at concrete inputs, with a plain text form in the place of JSON: an object is a mark and
-- its keys and values in turn, each ended by a zero. The sum of the bytes stands for the checksum.
use one_open_broker.Prelude.{
  ℕ, zero, suc, ◌+◌, ◌≡◌, ◌≢◌, refl, true, false, Option, none, some, List, [], ◌∷◌, ◌++◌, Str,
  codes, str_eq, arith, sym, if◌then◌else◌,
}
use one_open_broker.Dict.{Dict, UniqueKeys, get, put, has, count, keys}
use one_open_broker.Core.Message.{Bytes}
use one_open_broker.Protocol.Words.{big_endian}
use one_open_broker.Protocol.Frames.{Frame, ok, header24, is_packable, checksum, encode_frame}
use one_open_broker.Protocol.Reader.{new_reader, feed}
use one_open_broker.Protocol.Codec.{
  Json, merge, plain_frame, parsed, parse_metadata, command_fields, response_fields, command_frame,
  response_frame, dumped_frame,
}
use one_open_broker.Protocol.Messages.{or_else, command_arrives, refusal_arrives}

abbrev sum : Bytes → ℕ
sum [] = 0
sum (b ∷ bs) = b + sum bs

abbrev text_end : Str → Bytes
text_end [] = 0 ∷ []
text_end (c ∷ s) = suc c ∷ text_end s

abbrev entries : Dict Bytes → Bytes
entries [] = []
entries ((k, v) ∷ d) = text_end k ++ (text_end v ++ entries d)

abbrev grow : ℕ → List Str → List Str
grow c [] = (c ∷ []) ∷ []
grow c (s ∷ ss) = (c ∷ s) ∷ ss

abbrev texts : Bytes → List Str
texts [] = []
texts (zero ∷ bs) = [] ∷ texts bs
texts (suc c ∷ bs) = grow c (texts bs)

abbrev pairs : List Str → Dict Bytes
pairs [] = []
pairs (k ∷ []) = []
pairs (k ∷ v ∷ ss) = (k, v) ∷ pairs ss

abbrev object_of : Bytes → Option (Dict Bytes)
object_of [] = none
object_of (b ∷ bs) = some (pairs (texts bs))

abbrev plain : Json Bytes
plain = record {
  text = λ s. s;
  flag = λ b. elim b [ true ↦ 1 ∷ [] | false ↦ 2 ∷ [] ];
  dumps = λ d. some (123 ∷ entries d);
  loads = λ bs. some bs;
  as_object = object_of;
}

texts-text_end : (s : Str) (rest : Bytes) → texts (text_end s ++ rest) ≡ s ∷ texts rest
texts-text_end [] rest = refl
texts-text_end (c ∷ s) rest = rw (texts-text_end s rest) refl

pairs-entries : (d : Dict Bytes) → pairs (texts (entries d)) ≡ d
pairs-entries [] = refl
pairs-entries ((k, v) ∷ d) =
    rw (texts-text_end k (text_end v ++ entries d), texts-text_end v (entries d), pairs-entries d)
      refl

plain_loads :
    (d : Dict Bytes) (text : Bytes)
    → plain.dumps d ≡ some text
    → (value : Bytes) × (plain.loads text ≡ some value) × (plain.as_object value ≡ some d)
plain_loads d text dumped = (123 ∷ entries d, sym dumped, rw (pairs-entries d) refl)

abbrev bytes_of : Option Bytes → Bytes
bytes_of none = []
bytes_of (some bytes) = bytes

abbrev priority_field : Dict Bytes
priority_field = (codes "priority", 5 ∷ []) ∷ []

abbrev ping_bytes : Bytes
ping_bytes = bytes_of (command_frame plain sum 7 (codes "PING") priority_field (9 ∷ []))

abbrev ping_text : Bytes
ping_text = bytes_of (plain.dumps (command_fields plain (codes "PING") priority_field))

abbrev ping_frame : Frame
ping_frame = plain_frame 1 7 ping_text (9 ∷ [])

encodes_ping : command_frame plain sum 7 (codes "PING") priority_field (9 ∷ []) ≡ some ping_bytes
unfolding command_frame dumped_frame command_fields encode_frame is_packable checksum header24
    big_endian merge put str_eq
encodes_ping = refl

priority_once : UniqueKeys priority_field
unfolding count keys has
priority_once j = ground arith

command_arrives_example :
    (feed sum ping_bytes (new_reader 100) ≡ (new_reader 100, some (ok (ping_frame ∷ []))))
    × (fields : Dict Bytes) × (parse_metadata plain ping_frame ≡ parsed fields)
    × ((k : Str)
        → get k fields
          ≡ or_else
              (get k priority_field)
              (if str_eq (codes "cmd") k then some (codes "PING") else none))
command_arrives_example =
    command_arrives plain sum (λ d text u dumped. plain_loads d text dumped) (λ d e. cc) 100 7
      (codes "PING") priority_field (9 ∷ []) ping_bytes ping_text ping_frame priority_once
      encodes_ping refl (unfold command_fields merge put str_eq in omega arith) refl

abbrev refused : Dict Bytes
refused = response_fields plain false [] (codes "NOT_FOUND") []

abbrev refusal_bytes : Bytes
refusal_bytes = bytes_of (response_frame plain sum 7 false [] [] (codes "NOT_FOUND") [])

abbrev refusal_text : Bytes
refusal_text = bytes_of (plain.dumps refused)

abbrev refusal_frame : Frame
refusal_frame = plain_frame 2 7 refusal_text []

encodes_refusal : response_frame plain sum 7 false [] [] (codes "NOT_FOUND") [] ≡ some refusal_bytes
unfolding response_frame dumped_frame response_fields encode_frame is_packable checksum header24
    big_endian merge put str_eq
encodes_refusal = refl

refusal_arrives_example :
    (feed sum refusal_bytes (new_reader 100) ≡ (new_reader 100, some (ok (refusal_frame ∷ []))))
    × (parse_metadata plain refusal_frame ≡ parsed refused)
    × (get (codes "code") refused ≡ some (codes "NOT_FOUND"))
    × (get (codes "message") refused ≡ some (codes "NOT_FOUND"))
    × (codes "NOT_FOUND" ≢ [])
    × (codes "NOT_FOUND" ≢ [])
refusal_arrives_example =
    refusal_arrives plain sum (λ d text u dumped. plain_loads d text dumped) (λ d e. cc) 100 7 [] []
      refusal_bytes refusal_text (codes "NOT_FOUND") [] refusal_frame encodes_refusal refl
      (unfold response_fields merge put str_eq in omega arith) refl
