-- ===== src/Mrtap/Message.antt =====
-- bzerolib/mrtap/message and `HashPayload` of bzerolib/mrtap/util: the hash of a message, the answers
-- built from one, and the fields read through the `interface{}`.
pub mod Json
use bzero.Shared.{ℕ, Option, none, some, String, [], Outcome, ok, err, panic, if◌then◌else◌}
use bzero.Mrtap.Types.{
  Bytes, syn_ack, data_, data_ack, payload_type_name, SynPayload, SynAckPayload, DataPayload,
  DataAckPayload, Payload, syn_payload, syn_ack_payload, data_payload, data_ack_payload, absent,
  Message,
}
use bzero.Mrtap.Externals.{Externals}
use bzero.Mrtap.Keypair

pub data MessageError : Type 0 where
  not_a_syn not_a_data not_an_ack no_hpointer invalid_signature : MessageError

unfoldable pub payload_action : Payload → String
payload_action (syn_payload p) = p.action
payload_action (syn_ack_payload p) = p.action
payload_action (data_payload p) = p.action
payload_action (data_ack_payload p) = p.action
payload_action absent = ""

unfoldable pub payload_bytes : Payload → Bytes
payload_bytes (syn_payload p) = p.action_payload
payload_bytes (syn_ack_payload p) = p.action_response_payload
payload_bytes (data_payload p) = p.action_payload
payload_bytes (data_ack_payload p) = p.action_response_payload
payload_bytes absent = []

unfoldable pub get_action : Message → String
unfolding payload_action
get_action m = payload_action m.payload

unfoldable pub get_action_payload : Message → Bytes
unfolding payload_bytes
get_action_payload m = payload_bytes m.payload

unfoldable pub payload_hpointer : Payload → Outcome MessageError String
payload_hpointer (syn_payload p) = err no_hpointer
payload_hpointer (syn_ack_payload p) = ok p.h_pointer
payload_hpointer (data_payload p) = ok p.h_pointer
payload_hpointer (data_ack_payload p) = ok p.h_pointer
payload_hpointer absent = err no_hpointer

unfoldable pub get_hpointer : Message → Outcome MessageError String
unfolding payload_hpointer
get_hpointer m = payload_hpointer m.payload

module _ {V : Type 0} (x : Externals V) where
  -- The payloads encode, so the failure that `HashPayload` reports does not come about.
  unfoldable pub hash_payload : Payload → Bytes
  hash_payload p = x.sha3_256 (x.replace_form_feed (x.sort_keys (x.encode_payload p)))

  unfoldable pub payload_hash : Payload → String
  payload_hash p = x.base64_encode (hash_payload p)

  unfoldable pub hash : Message → String
  hash m = payload_hash m.payload

  -- `VerifySignature`
  unfoldable pub verify_signature : Message → Option Bytes → Outcome MessageError (Unit {0})
  verify_signature m key = elim (Keypair.verify x key (hash_payload m.payload) m.signature) [
    | none ↦ panic
    | some good ↦ if good then ok tt else err invalid_signature
  ]

  -- `Sign`; its result says that the payload was hashed, which never fails.
  unfoldable pub sign : Message → Bytes → Message
  sign m key = record m { signature = Keypair.sign x key (hash_payload m.payload) }

  -- The four `BuildResponsePayload` methods. `now` is read for the timestamp of a SynAck only.
  unfoldable pub respond_syn : SynPayload → Bytes → String → String → String → ℕ → SynAckPayload
  respond_syn s bytes pub_key nonce version now = record {
    schema_version = version;
    type = payload_type_name syn_ack;
    action = s.action;
    action_response_payload = bytes;
    timestamp = x.print_time now;
    target_public_key = pub_key;
    nonce = nonce;
    h_pointer = payload_hash (syn_payload s);
  }

  unfoldable pub respond_data : DataPayload → Bytes → String → String → DataAckPayload
  respond_data d bytes pub_key version = record {
    schema_version = version;
    type = payload_type_name data_ack;
    action = d.action;
    timestamp = "";
    target_public_key = pub_key;
    h_pointer = payload_hash (data_payload d);
    action_response_payload = bytes;
  }

  unfoldable pub respond_syn_ack : SynAckPayload → String → Bytes → String → String → DataPayload
  respond_syn_ack s action bytes cert_hash version = record {
    schema_version = version;
    type = payload_type_name data_;
    action = action;
    timestamp = "";
    target_id = s.target_public_key;
    h_pointer = payload_hash (syn_ack_payload s);
    bz_cert_hash = cert_hash;
    action_payload = bytes;
  }

  unfoldable pub respond_data_ack : DataAckPayload → String → Bytes → String → String → DataPayload
  respond_data_ack d action bytes cert_hash version = record {
    schema_version = version;
    type = payload_type_name data_;
    action = action;
    timestamp = "";
    target_id = d.target_public_key;
    h_pointer = payload_hash (data_ack_payload d);
    bz_cert_hash = cert_hash;
    action_payload = bytes;
  }

  unfoldable pub build_unsigned_syn_ack :
      Payload → Bytes → String → String → String → ℕ → Outcome MessageError Message
  unfolding respond_syn
  build_unsigned_syn_ack (syn_payload s) bytes pub_key nonce version now = ok (record {
    type = syn_ack;
    payload = syn_ack_payload (respond_syn s bytes pub_key nonce version now);
    signature = "";
  })
  build_unsigned_syn_ack _ bytes pub_key nonce version now = err not_a_syn

  unfoldable pub build_unsigned_data_ack :
      Payload → Bytes → String → String → Outcome MessageError Message
  unfolding respond_data
  build_unsigned_data_ack (data_payload d) bytes pub_key version = ok (record {
    type = data_ack;
    payload = data_ack_payload (respond_data d bytes pub_key version);
    signature = "";
  })
  build_unsigned_data_ack _ bytes pub_key version = err not_a_data

  unfoldable pub build_unsigned_data :
      Payload → String → Bytes → String → String → Outcome MessageError Message
  unfolding respond_syn_ack respond_data_ack
  build_unsigned_data (syn_ack_payload s) action bytes cert_hash version = ok (record {
    type = data_;
    payload = data_payload (respond_syn_ack s action bytes cert_hash version);
    signature = "";
  })
  build_unsigned_data (data_ack_payload d) action bytes cert_hash version = ok (record {
    type = data_;
    payload = data_payload (respond_data_ack d action bytes cert_hash version);
    signature = "";
  })
  build_unsigned_data _ action bytes cert_hash version = err not_an_ack
