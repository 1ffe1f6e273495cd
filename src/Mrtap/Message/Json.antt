-- ===== src/Mrtap/Message/Json.antt =====
-- `MarshalJSON` and `UnmarshalJSON` of bzerolib/mrtap/message/mrtapmessage.go.
pub mod RoundTrip
mod Tests
use bzero.Shared.{
  ◌≡◌, refl, Bool, true, false, Option, none, some, String, List, [], ◌∷◌, map, str_eq,
  if◌then◌else◌, Outcome, ok, err, panic,
}
use bzero.Mrtap.Types.{
  PayloadType, syn, syn_ack, data_, data_ack, other, payload_type_name, SynPayload, SynAckPayload,
  DataPayload, DataAckPayload, Payload, syn_payload, syn_ack_payload, data_payload,
  data_ack_payload, absent, Message,
}

pub data JsonError : Type 0 where
  not_an_object bad_type bad_signature malformed_payload type_mismatch : JsonError

-- encoding/json, with the type of a raw message: objects as maps, where null is `none`; texts; and the
-- payloads, structs of texts and byte slices.
pub record Json (R : Type 0) : Type 0 where
  pub write_object : List (String × R) → R
  pub read_object : R → Option (List (String × Option R))
  pub write_string : String → R
  pub read_string : R → Option String
  pub write_payload : Payload → R
  pub read_syn : R → Option SynPayload
  pub read_syn_ack : R → Option SynAckPayload
  pub read_data : R → Option DataPayload
  pub read_data_ack : R → Option DataAckPayload

-- The value of a key of the Go map, whose missing keys read as nil.
unfoldable pub value : {R : Type 0} → String → List (String × Option R) → Option R
value k [] = none
value k ((j, v) ∷ ps) = if str_eq j k then v else value k ps

-- Whether the map has a key.
unfoldable pub has : {R : Type 0} → String → List (String × Option R) → Bool
has k [] = false
has k ((j, v) ∷ ps) = if str_eq j k then true else has k ps

-- `PayloadType(t)`
unfoldable pub payload_type : String → PayloadType
payload_type s =
    if str_eq s "Syn"
    then syn
    else if str_eq s "SynAck"
    then syn_ack
    else if str_eq s "Data"
    then data_
    else if str_eq s "DataAck"
    then data_ack
    else other s

module _ {R : Type 0} (j : Json R) where
  -- `MarshalJSON`: the payload is written twice, for readers of the old name.
  unfoldable pub marshal : Message → R
  marshal m = j.write_object (
      ("keysplittingPayload", j.write_payload m.payload)
      ∷ ("type", j.write_string (payload_type_name m.type))
      ∷ ("payload", j.write_payload m.payload)
      ∷ ("signature", j.write_string m.signature)
      ∷ [])

  -- The switch on the type.
  unfoldable pub read_payload : PayloadType → R → Outcome JsonError Payload
  read_payload syn raw = elim (j.read_syn raw) [
    | none ↦ err malformed_payload
    | some p ↦ ok (syn_payload p)
  ]
  read_payload syn_ack raw = elim (j.read_syn_ack raw) [
    | none ↦ err malformed_payload
    | some p ↦ ok (syn_ack_payload p)
  ]
  read_payload data_ raw = elim (j.read_data raw) [
    | none ↦ err malformed_payload
    | some p ↦ ok (data_payload p)
  ]
  read_payload data_ack raw = elim (j.read_data_ack raw) [
    | none ↦ err malformed_payload
    | some p ↦ ok (data_ack_payload p)
  ]
  read_payload (other s) raw = err type_mismatch

  -- `json.Unmarshal(*objmap[...], &t)`, which panics on nil.
  unfoldable pub read_text : JsonError → Option R → Outcome JsonError String
  read_text e none = panic
  read_text e (some raw) = elim (j.read_string raw) [ none ↦ err e | some s ↦ ok s ]

  unfoldable pub raw_payload : List (String × Option R) → Option R
  raw_payload fields =
      if has "payload" fields then value "payload" fields else value "keysplittingPayload" fields

  unfoldable pub read_fields : List (String × Option R) → Outcome JsonError Message
  read_fields fields = elim (read_text bad_type (value "type" fields)) [
    | err e ↦ err e
    | panic ↦ panic
    | ok t ↦ elim (read_text bad_signature (value "signature" fields)) [
      | err e ↦ err e
      | panic ↦ panic
      | ok s ↦ elim (raw_payload fields) [
        | none ↦ panic
        | some raw ↦ elim (read_payload (payload_type t) raw) [
          | err e ↦ err e
          | panic ↦ panic
          | ok p ↦ ok (record { type = payload_type t; payload = p; signature = s })
        ]
      ]
    ]
  ]

  unfoldable pub unmarshal : R → Outcome JsonError Message
  unfolding read_fields
  unmarshal raw = elim (j.read_object raw) [
    | none ↦ err not_an_object
    | some fields ↦ read_fields fields
  ]
