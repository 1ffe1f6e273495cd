-- ===== src/Mrtap/Message/Json/RoundTrip.antt =====
-- The writer and the reader of a message's JSON together, and what makes the reader panic.
use bzero.Shared.{◌≡◌, refl, false, Option, some, String, List, [], ◌∷◌, arith, ok}
use bzero.Mrtap.Types.{
  PayloadType, syn, syn_ack, data_, data_ack, payload_type_name, SynPayload, SynAckPayload,
  DataPayload, DataAckPayload, Payload, syn_payload, syn_ack_payload, data_payload,
  data_ack_payload, Message,
}
use bzero.Mrtap.Message.Json.{
  Json, marshal, unmarshal, value, has, payload_type, read_payload, read_text, raw_payload,
}

-- The payload is of the type that the message names.
pub data IsTyped : PayloadType → Payload → Type 0 where
  typed_syn : (p : SynPayload) → IsTyped syn (syn_payload p)
  typed_syn_ack : (p : SynAckPayload) → IsTyped syn_ack (syn_ack_payload p)
  typed_data : (p : DataPayload) → IsTyped data_ (data_payload p)
  typed_data_ack : (p : DataAckPayload) → IsTyped data_ack (data_ack_payload p)

-- What there is of a payload in its JSON: a certificate's expiration and hash are fields that are not
-- exported, which encoding/json leaves out, and a reader has their zero values.
abbrev pub read_syn_payload : SynPayload → SynPayload
read_syn_payload p = record p { bz_cert = record (p.bz_cert) { expiration = 0; hash = "" } }

abbrev pub as_read : Payload → Payload
as_read (syn_payload p) = syn_payload (read_syn_payload p)
as_read p = p

-- What encoding/json documents: an object of four keys and what is not null, a text and a payload are
-- read back as they were written, but for the fields that are not exported.
pub record ReadsBack {R : Type 0} (j : Json R) : Type 0 where
  pub object :
      (type : PayloadType) (p : Payload) (a b : String)
      → IsTyped type p
      → j.read_object (
          j.write_object (
            ("keysplittingPayload", j.write_payload p)
            ∷ ("type", j.write_string a)
            ∷ ("payload", j.write_payload p)
            ∷ ("signature", j.write_string b)
            ∷ []))
        ≡ some (
            ("keysplittingPayload", some (j.write_payload p))
            ∷ ("type", some (j.write_string a))
            ∷ ("payload", some (j.write_payload p))
            ∷ ("signature", some (j.write_string b))
            ∷ [])
  pub text : (s : String) → j.read_string (j.write_string s) ≡ some s
  pub syn_back :
      (p : SynPayload) → j.read_syn (j.write_payload (syn_payload p)) ≡ some (read_syn_payload p)
  pub syn_ack_back :
      (p : SynAckPayload) → j.read_syn_ack (j.write_payload (syn_ack_payload p)) ≡ some p
  pub data_back : (p : DataPayload) → j.read_data (j.write_payload (data_payload p)) ≡ some p
  pub data_ack_back :
      (p : DataAckPayload) → j.read_data_ack (j.write_payload (data_ack_payload p)) ≡ some p

module _ {R : Type 0} (j : Json R) where
  read_payload-written :
      (type : PayloadType) (p : Payload)
      → ReadsBack j
      → IsTyped type p
      → (payload_type (payload_type_name type) ≡ type)
        × (read_payload j type (j.write_payload p) ≡ ok (as_read p))
  unfolding read_payload payload_type
  read_payload-written _ _ r (typed_syn p) = (refl, ground (arith, r.syn_back p))
  read_payload-written _ _ r (typed_syn_ack p) = (refl, ground (arith, r.syn_ack_back p))
  read_payload-written _ _ r (typed_data p) = (refl, ground (arith, r.data_back p))
  read_payload-written _ _ r (typed_data_ack p) = (refl, ground (arith, r.data_ack_back p))

  -- A message whose payload is of the type it names is read back from its JSON as it was, but that the
  -- certificate of a Syn has neither its expiration nor its hash.
  pub unmarshal-marshal :
      (m : Message)
      → ReadsBack j
      → IsTyped m.type m.payload
      → unmarshal j (marshal j m) ≡ ok (record m { payload = as_read m.payload })
  unfolding unmarshal marshal read_text raw_payload value has
  unmarshal-marshal m r t = ground (
    arith,
    r.object m.type m.payload (payload_type_name m.type) m.signature t,
    r.text (payload_type_name m.type),
    r.text m.signature,
    read_payload-written m.type m.payload r t,
  )

  -- A message of an agent or daemon that writes the old name only is read by it.
  pub unmarshal-legacy :
      (bytes : R) (fields : List (String × Option R)) (type : PayloadType) (p : Payload)
      (s : String)
      → ReadsBack j
      → IsTyped type p
      → j.read_object bytes ≡ some fields
      → has "payload" fields ≡ false
      → value "keysplittingPayload" fields ≡ some (j.write_payload p)
      → value "type" fields ≡ some (j.write_string (payload_type_name type))
      → value "signature" fields ≡ some (j.write_string s)
      → unmarshal j bytes ≡ ok (record { type = type; payload = as_read p; signature = s })
  unfolding unmarshal read_text raw_payload
  unmarshal-legacy bytes fields type p s r t e missing legacy typed signed = ground (
    arith,
    e,
    missing,
    legacy,
    typed,
    signed,
    r.text (payload_type_name type),
    r.text s,
    read_payload-written type p r t,
  )
