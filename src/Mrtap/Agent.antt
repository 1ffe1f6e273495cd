-- ===== src/Mrtap/Agent.antt =====
-- bctl/agent/mrtap/mrtap.go: the agent's end of the protocol. A method returns the new state beside its
-- outcome, since it keeps what it has written when it fails.
pub mod Accept
pub mod Greeting
use bzero.Shared.{
  ℕ, Bool, not, ◌&&◌, Option, none, some, String, List, str_eq, if◌then◌else◌, Outcome, ok, err,
  panic,
}
use bzero.Mrtap.Types.{
  Bytes, BzCert, PayloadType, syn, data_, other, SynPayload, DataPayload, Payload, syn_payload,
  data_payload, absent, Message, agreed_schema_version,
}
use bzero.Mrtap.Externals.{Externals}
use bzero.Mrtap.Keypair
use bzero.Mrtap.Message
use bzero.Mrtap.Message.{MessageError}
use bzero.Mrtap.BzCert
use bzero.Mrtap.BzCert.{CertError}

pub data AgentError : Type 0 where
  bad_cert : CertError → AgentError
  malformed_public_key bad_schema_version wrong_target bad_constraint : AgentError
  message_error : MessageError → AgentError
  cert_mismatch cert_expired wrong_hpointer unhandled_type no_last_hash not_signed not_hashed :
      AgentError

-- A pointer that may be nil is an option.
pub record Agent (V : Type 0) : Type 0 where
  pub last_data_message : Option Message
  pub expected_hpointer : String
  pub client_bz_cert : Option BzCert
  pub client_public_key : Option Bytes
  pub public_key : Bytes
  pub private_key : Bytes
  pub idp_provider : String
  pub idp_org_id : String
  pub service_accounts : List String
  pub should_check_target_id : V → Bool
  pub daemon_schema_version : Option V

-- `MrtapConfig`
pub record Config : Type 0 where
  pub public_key : Bytes
  pub private_key : Bytes
  pub idp_provider : String
  pub idp_org_id : String
  pub service_account_jwks_urls : List String

-- `m.signature_of(...)` read as an error of the agent.
unfoldable pub as_agent : Outcome MessageError (Unit {0}) → Outcome AgentError (Unit {0})
as_agent (ok u) = ok u
as_agent (err e) = err (message_error e)
as_agent panic = panic

module _ {V : Type 0} (x : Externals V) where
  unfoldable pub new : Config → Outcome AgentError (Agent V)
  new c = elim (x.new_constraint "> 1.0") [
    | none ↦ err bad_constraint
    | some check ↦ ok (record {
      last_data_message = none;
      expected_hpointer = "";
      client_bz_cert = none;
      client_public_key = none;
      public_key = c.public_key;
      private_key = c.private_key;
      idp_provider = c.idp_provider;
      idp_org_id = c.idp_org_id;
      service_accounts = c.service_account_jwks_urls;
      should_check_target_id = check;
      daemon_schema_version = none;
    })
  ]

  -- The version of the daemon, and whether its Syn names this agent.
  unfoldable pub accept_version :
      Agent V → BzCert → SynPayload → Agent V × Outcome AgentError (Unit {0})
  accept_version m cert p = elim (x.new_version p.schema_version) [
    | none ↦ (m, err bad_schema_version)
    | some v ↦
        let m' = record m { daemon_schema_version = some v } in
        if m.should_check_target_id v
          && not (str_eq p.target_id (Keypair.key_string x m.public_key))
        then (m', err wrong_target)
        else (record m' { client_bz_cert = some cert }, ok tt)
  ]

  -- The certificate's key is stored before the signature is verified under it.
  unfoldable pub accept_cert :
      Agent V → Message → SynPayload → BzCert → Agent V × Outcome AgentError (Unit {0})
  accept_cert m msg p cert = elim (Keypair.public_key_from_string x cert.client_public_key) [
    | none ↦ (m, err malformed_public_key)
    | some key ↦
        let m' = record m { client_public_key = some key } in
        elim (as_agent (Message.verify_signature x msg (some key))) [
          | ok _ ↦ accept_version m' cert p
          | err e ↦ (m', err e)
          | panic ↦ (m', panic)
        ]
  ]

  -- `now` is the time of the verification.
  unfoldable pub validate_syn :
      Agent V → ℕ → Message → SynPayload → Agent V × Outcome AgentError (Unit {0})
  validate_syn m now msg p =
      elim (BzCert.verify x m.idp_provider m.idp_org_id m.service_accounts now p.bz_cert) [
        | ok cert ↦ accept_cert m msg p cert
        | err e ↦ (m, err (bad_cert e))
        | panic ↦ (m, panic)
      ]

  -- The tests of a Data message after its signature.
  unfoldable pub accept_data :
      Agent V → ℕ → Message → DataPayload → BzCert → Agent V × Outcome AgentError (Unit {0})
  accept_data m now msg p cert =
      if BzCert.expired cert now
      then (m, err cert_expired)
      else if not (str_eq p.h_pointer m.expected_hpointer)
      then (m, err wrong_hpointer)
      else (record m { last_data_message = some msg }, ok tt)

  -- With no certificate stored, the read of its hash panics.
  unfoldable pub validate_data :
      Agent V → ℕ → Message → DataPayload → Agent V × Outcome AgentError (Unit {0})
  validate_data m now msg p = elim m.client_bz_cert [
    | none ↦ (m, panic)
    | some cert ↦
        if not (str_eq cert.hash p.bz_cert_hash)
        then (m, err cert_mismatch)
        else elim (as_agent (Message.verify_signature x msg m.client_public_key)) [
          | ok _ ↦ accept_data m now msg p cert
          | err e ↦ (m, err e)
          | panic ↦ (m, panic)
        ]
  ]

  -- The switch on the type, and the assertion on the payload, which panics where they disagree.
  unfoldable pub validate_by :
      PayloadType → Payload → Agent V → ℕ → Message → Agent V × Outcome AgentError (Unit {0})
  validate_by syn (syn_payload p) m now msg = validate_syn m now msg p
  validate_by syn _ m now msg = (m, panic)
  validate_by data_ (data_payload p) m now msg = validate_data m now msg p
  validate_by data_ _ m now msg = (m, panic)
  validate_by _ _ m now msg = (m, err unhandled_type)

  unfoldable pub validate : Agent V → ℕ → Message → Agent V × Outcome AgentError (Unit {0})
  unfolding validate_by
  validate m now msg = validate_by msg.type msg.payload m now msg

  unfoldable pub get_schema_version_to_use : Agent V → Outcome AgentError V
  get_schema_version_to_use m = elim (x.new_version agreed_schema_version) [
    | none ↦ err bad_schema_version
    | some own ↦ elim m.daemon_schema_version [
      | none ↦ panic
      | some theirs ↦ ok (if x.less_than theirs own then theirs else own)
    ]
  ]

  -- The nonce of a SynAck: the hash of the last Data message accepted, or a random text.
  unfoldable pub nonce_of : Agent V → String → Outcome AgentError String
  nonce_of m random = elim m.last_data_message [
    | none ↦ ok random
    | some last ↦ let h = Message.hash x last in if str_eq h "" then err no_last_hash else ok h
  ]

  -- A message of a type that is not handled leaves the zero message, which is signed all the same.
  unfoldable pub unsigned_ack :
      PayloadType → Agent V → ℕ → String → Message → Bytes → String → Outcome AgentError Message
  unsigned_ack syn m now random msg bytes version = elim (nonce_of m random) [
    | err e ↦ err e
    | panic ↦ panic
    | ok nonce ↦
        elim (Message.build_unsigned_syn_ack x msg.payload bytes (Keypair.key_string x m.public_key)
          nonce version now) [ ok ack ↦ ok ack | err e ↦ err (message_error e) | panic ↦ panic ]
  ]
  unsigned_ack data_ m now random msg bytes version =
      elim (Message.build_unsigned_data_ack x msg.payload bytes (Keypair.key_string x m.public_key)
        version) [ ok ack ↦ ok ack | err e ↦ err (message_error e) | panic ↦ panic ]
  unsigned_ack _ m now random msg bytes version =
      ok (record { type = other ""; payload = absent; signature = "" })

  -- The signature and the hash of the answer; its hash is what the next Data message must point to.
  unfoldable pub sign_ack : Agent V → Message → Agent V × Outcome AgentError Message
  sign_ack m ack =
      let signed = Message.sign x ack m.private_key in
      let h = Message.hash x signed in
      if str_eq signed.signature ""
      then (m, err not_signed)
      else if str_eq h ""
      then (m, err not_hashed)
      else (record m { expected_hpointer = h }, ok signed)

  unfoldable pub build_ack :
      Agent V → ℕ → String → Message → Bytes → Agent V × Outcome AgentError Message
  build_ack m now random msg bytes = elim (get_schema_version_to_use m) [
    | err e ↦ (m, err e)
    | panic ↦ (m, panic)
    | ok version ↦ elim (unsigned_ack msg.type m now random msg bytes (x.print_version version)) [
      | err e ↦ (m, err e)
      | panic ↦ (m, panic)
      | ok ack ↦ sign_ack m ack
    ]
  ]
