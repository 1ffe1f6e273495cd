-- ===== src/Mrtap/Daemon.antt =====
-- bctl/daemon/mrtap/mrtap.go: the daemon's end of the protocol, its state and the messages it sends.
-- Each method runs under the state's lock, so a method is a function from state to state. The channel
-- `outboxQueue` is the list of the messages given to it; that a send waits while eight are unread is
-- not modelled. The certificate is the interface `IDaemonBZCert`.
pub mod Recovery
pub mod Pipeline
pub mod Trust
pub mod Budget
use bzero.Shared.{
  ℕ, ◌+◌, Bool, true, false, not, ◌&&◌, ◌||◌, Option, none, some, String, List, [], ◌∷◌, ◌++◌,
  str_eq, leb, ◌==◌, if◌then◌else◌, length, Outcome, ok, err, panic,
}
use bzero.Mrtap.Types.{
  Bytes, BzCert, PayloadType, syn, payload_type_name, SynPayload, Payload, syn_payload, Message,
  agreed_schema_version,
}
use bzero.Mrtap.Externals.{Externals}
use bzero.Mrtap.Keypair
use bzero.Mrtap.Message
use bzero.Mrtap.Message.{MessageError}
use bzero.Mrtap.PipelineMap.{OrderedMap, newest}

pub data DaemonError : Type 0 where
  empty_action nothing_to_build_off not_hashed refresh_failed not_marshalled : DaemonError
  hpointer_empty too_many_retries : DaemonError
  invalid_public_key invalid_signature unknown_hpointer bad_schema_version bad_constraint :
      DaemonError
  message_error : MessageError → DaemonError

-- `IDaemonBZCert`. `Refresh` may renew the certificate, and says whether it succeeded.
pub record Credential (C : Type 0) : Type 0 where
  pub refresh : C → C × Bool
  pub cert : C → BzCert
  pub cert_hash : C → String
  pub private_key : C → Bytes

-- `M` is the ordered map, `C` the certificate.
pub record Daemon (V M C : Type 0) : Type 0 where
  pub credential : C
  pub agent_pub_key : Bytes
  pub ack_public_key : Option Bytes
  pub syn_action : String
  pub outbox_queue : List Message
  pub pipeline_map : M
  pub pipeline_length : ℕ
  pub is_handshake_complete : Bool
  pub last_ack : Option Message
  pub last_acked_data : Option Message
  pub recovering : Bool
  pub error_recovery_attempt : ℕ
  pub schema_version : Option V
  pub pre_pipelining_agent : Bool
  pub pipeline_limit : ℕ

abbrev pub max_error_recovery_tries : ℕ
max_error_recovery_tries = 3

abbrev pub max_pipeline_limit : ℕ
max_pipeline_limit = 8

unfoldable pub as_daemon : {A : Type 0} → Outcome MessageError A → Outcome DaemonError A
as_daemon (ok a) = ok a
as_daemon (err e) = err (message_error e)
as_daemon panic = panic

module _ {V M C : Type 0} (x : Externals V) (o : OrderedMap M) (c : Credential C) where
  unfoldable pub new : Bytes → C → Daemon V M C
  new agent_pub_key credential = record {
    credential = credential;
    agent_pub_key = agent_pub_key;
    ack_public_key = none;
    syn_action = "initial";
    outbox_queue = [];
    pipeline_map = o.empty;
    pipeline_length = 0;
    is_handshake_complete = false;
    last_ack = none;
    last_acked_data = none;
    recovering = false;
    error_recovery_attempt = 0;
    schema_version = none;
    pre_pipelining_agent = false;
    pipeline_limit = max_pipeline_limit;
  }

  unfoldable pub is_pipeline_empty : Daemon V M C → Bool
  is_pipeline_empty m = m.pipeline_length == 0

  -- `m.schemaVersion.String()`, which panics on the nil version.
  unfoldable pub version_text : Daemon V M C → Outcome DaemonError String
  version_text m = elim m.schema_version [ none ↦ panic | some v ↦ ok (x.print_version v) ]

  unfoldable pub add_to_pipeline_map :
      Daemon V M C → Message → Daemon V M C × Outcome DaemonError (Unit {0})
  add_to_pipeline_map m msg =
      let h = Message.hash x msg in
      let map = o.set m.pipeline_map h msg in
      if str_eq h ""
      then (m, err not_hashed)
      else (record m { pipeline_map = map; pipeline_length = length (o.pairs map) }, ok tt)

  -- An agent before version 2.0 wants its payload encoded once more.
  unfoldable pub wrap_payload : Bool → Bytes → Bytes
  wrap_payload false bytes = bytes
  wrap_payload true bytes =
      x.marshal_text
        (x.base64_encode (elim (x.unmarshal_bytes bytes) [ none ↦ bytes | some pre ↦ pre ]))

  unfoldable pub build_response :
      Daemon V M C → Message → String → Bytes → Outcome DaemonError Message
  unfolding wrap_payload
  build_response m ack action bytes = elim (version_text m) [
    | err e ↦ err e
    | panic ↦ panic
    | ok version ↦
        elim (Message.build_unsigned_data x ack.payload action
          (wrap_payload m.pre_pipelining_agent bytes) (c.cert_hash m.credential) version) [
            | ok response ↦ ok (Message.sign x response (c.private_key m.credential))
            | err e ↦ err (message_error e)
            | panic ↦ panic
          ]
  ]

  -- The ack that a message expects, with an empty payload.
  unfoldable pub predict_ack : Daemon V M C → Message → Outcome DaemonError Message
  predict_ack m msg = elim (version_text m) [
    | err e ↦ err e
    | panic ↦ panic
    | ok version ↦ as_daemon (
        Message.build_unsigned_data_ack x msg.payload [] (Keypair.key_string x m.agent_pub_key)
          version)
  ]

  -- The ack that the next message is built off: predicted from the newest message in flight, or the
  -- last one received.
  unfoldable pub ack_to_build_off : Daemon V M C → Outcome DaemonError Message
  unfolding predict_ack
  ack_to_build_off m = elim (newest (o.pairs m.pipeline_map)) [
    | some msg ↦ predict_ack m msg
    | none ↦ elim m.last_ack [ none ↦ err nothing_to_build_off | some ack ↦ ok ack ]
  ]

  unfoldable pub ship : Daemon V M C → Message → Daemon V M C × Outcome DaemonError (Unit {0})
  ship m msg =
      let (m', added) = add_to_pipeline_map m msg in
      elim added [
        | ok _ ↦ (record m' { outbox_queue = m'.outbox_queue ++ (msg ∷ []) }, ok tt)
        | err e ↦ (m', err e)
        | panic ↦ (m', panic)
      ]

  unfoldable pub pipeline :
      Daemon V M C → String → Bytes → Daemon V M C × Outcome DaemonError (Unit {0})
  pipeline m action bytes =
      if str_eq action "" then (m, err empty_action) else elim (ack_to_build_off m) [
        | err e ↦ (m, err e)
        | panic ↦ (m, panic)
        | ok ack ↦ elim (build_response m ack action bytes) [
          | err e ↦ (m, err e)
          | panic ↦ (m, panic)
          | ok msg ↦ ship m msg
        ]
      ]

  -- The condition under which `Inbox` stops waiting.
  unfoldable pub is_open : Daemon V M C → Bool
  is_open m =
      not (leb m.pipeline_limit (length (o.pairs m.pipeline_map)) || not m.is_handshake_complete)

  -- `none` while the call waits.
  unfoldable pub inbox :
      Daemon V M C → String → Bytes → Option (Daemon V M C × Outcome DaemonError (Unit {0}))
  inbox m action bytes = if is_open m then some (pipeline m action bytes) else none

  -- The Syn of a state; the text is the nonce that was drawn.
  unfoldable pub syn_of : Daemon V M C → Bytes → String → SynPayload
  syn_of m bytes nonce = record {
    schema_version = agreed_schema_version;
    type = payload_type_name syn;
    action = m.syn_action;
    action_payload = bytes;
    timestamp = "";
    target_id = Keypair.key_string x m.agent_pub_key;
    nonce = nonce;
    bz_cert = c.cert m.credential;
  }

  unfoldable pub unsigned_syn : Daemon V M C → Bytes → String → Message
  unsigned_syn m bytes nonce = record {
    type = syn;
    payload = syn_payload (syn_of m bytes nonce);
    signature = "";
  }

  unfoldable pub send_syn :
      Daemon V M C → Message → Bool → Daemon V M C × Outcome DaemonError Message
  send_syn m msg send =
      let (m', added) = add_to_pipeline_map m msg in
      elim added [
        | ok _ ↦ (
          if send then record m' { outbox_queue = m'.outbox_queue ++ (msg ∷ []) } else m',
          ok msg,
        )
        | err e ↦ (m', err e)
        | panic ↦ (m', panic)
      ]

  -- `BuildSyn`; `none` is a payload that JSON cannot encode.
  unfoldable pub build_syn :
      Daemon V M C
      → String
      → Option Bytes
      → Bool
      → String
      → Daemon V M C × Outcome DaemonError Message
  unfolding unsigned_syn
  build_syn m action bytes send nonce =
      let (credential, fresh) = c.refresh m.credential in
      let m1 = record m {
        credential = credential;
        is_handshake_complete = false;
        last_ack = none;
      } in
      let m2 = record m1 {
        syn_action = if str_eq m.syn_action "initial" then action else m.syn_action;
      } in
      if not fresh then (m1, err refresh_failed) else elim bytes [
        | none ↦ (m2, err not_marshalled)
        | some json ↦
            send_syn m2 (Message.sign x (unsigned_syn m2 json nonce) (c.private_key credential))
              send
      ]
