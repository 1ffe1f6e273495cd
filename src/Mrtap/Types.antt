-- ===== src/Mrtap/Types.antt =====
-- The records that MrTAP sends: bzerolib/mrtap/message and the certificate of bzerolib/mrtap/bzcert.
use bzero.Shared.{ℕ, String, List}

-- `[]byte`
abbrev pub Bytes : Type 0
Bytes = List ℕ

-- A time is a number of seconds; the zero `time.Time` is 0.
pub record BzCert : Type 0 where
  pub initial_id_token : String
  pub current_id_token : String
  pub client_public_key : String
  pub rand : String
  pub signature_on_rand : String
  pub expiration : ℕ
  pub hash : String

-- A Go string type; any other text is `other`.
pub data PayloadType : Type 0 where
  syn syn_ack data_ data_ack : PayloadType
  other : String → PayloadType

pub record SynPayload : Type 0 where
  pub schema_version : String
  pub type : String
  pub action : String
  pub action_payload : Bytes
  pub timestamp : String
  pub target_id : String
  pub nonce : String
  pub bz_cert : BzCert

pub record SynAckPayload : Type 0 where
  pub schema_version : String
  pub type : String
  pub action : String
  pub action_response_payload : Bytes
  pub timestamp : String
  pub target_public_key : String
  pub nonce : String
  pub h_pointer : String

pub record DataPayload : Type 0 where
  pub schema_version : String
  pub type : String
  pub action : String
  pub timestamp : String
  pub target_id : String
  pub h_pointer : String
  pub bz_cert_hash : String
  pub action_payload : Bytes

pub record DataAckPayload : Type 0 where
  pub schema_version : String
  pub type : String
  pub action : String
  pub timestamp : String
  pub target_public_key : String
  pub h_pointer : String
  pub action_response_payload : Bytes

-- The `interface{}` of a message. `absent` is the nil interface of a message not filled in.
pub data Payload : Type 0 where
  syn_payload : SynPayload → Payload
  syn_ack_payload : SynAckPayload → Payload
  data_payload : DataPayload → Payload
  data_ack_payload : DataAckPayload → Payload
  absent : Payload

pub record Message : Type 0 where
  pub type : PayloadType
  pub payload : Payload
  pub signature : String

-- The Go constants that go into the `Type` field of a payload.
abbrev pub payload_type_name : PayloadType → String
payload_type_name syn = "Syn"
payload_type_name syn_ack = "SynAck"
payload_type_name data_ = "Data"
payload_type_name data_ack = "DataAck"
payload_type_name (other s) = s

-- `message.SchemaVersion`
abbrev pub agreed_schema_version : String
agreed_schema_version = "2.2"
