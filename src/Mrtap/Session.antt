-- ===== src/Mrtap/Session.antt =====
-- The two ends of the protocol together: which messages of the daemon the agent accepts.
pub mod Delivery
pub mod Stream
pub mod Greeting
pub mod Handshake
pub mod Resume
use bzero.Shared.{
  ℕ, ◌≤◌, ◌≡◌, ◌≢◌, ◌⊎◌, Option, none, some, String, List, [], ◌∷◌, ◌++◌, Outcome, ok, err, panic,
}
use bzero.Mrtap.Types.{
  Bytes, BzCert, Payload, SynAckPayload, DataAckPayload, syn_ack_payload, data_ack_payload, Message,
  agreed_schema_version,
}
use bzero.Mrtap.Externals.{Externals}
use bzero.Mrtap.Keypair
use bzero.Mrtap.Message
use bzero.Mrtap.PipelineMap.{OrderedMap, find}
use bzero.Mrtap.Daemon.{Daemon, DaemonError, Credential, ack_to_build_off, build_response, pipeline}
use bzero.Mrtap.Agent
use bzero.Mrtap.Agent.{Agent}

-- What is documented of the encodings: the base64 text of a digest or a signature, which are 32 and 64
-- bytes long, is not empty.
pub record Encodings {V : Type 0} (x : Externals V) : Type 0 where
  pub hash_filled : (p : Payload) → Message.payload_hash x p ≢ ""
  pub signature_filled : (key content : Bytes) → Keypair.sign x key content ≢ ""

-- The payloads that a Data message can be built off.
abbrev pub IsAck : Payload → Type 0
IsAck p =
    ((s : SynAckPayload) × (p ≡ syn_ack_payload s))
    ⊎ ((d : DataAckPayload) × (p ≡ data_ack_payload d))

-- What `ed25519` promises of a key pair: what one key signs verifies under the other.
abbrev pub IsKeyPair : {V : Type 0} → Externals V → Bytes → Bytes → Type 0
IsKeyPair x private public =
    (m : Message) → Message.verify_signature x (Message.sign x m private) (some public) ≡ ok tt

module _ {V M C : Type 0} (x : Externals V) (o : OrderedMap M) (c : Credential C) where
  -- The daemon and the agent hold the same certificate, its keys fit, they agree on the version to use
  -- and on the agent's key, and the hash pointer that the agent expects is the one of the ack that the
  -- daemon builds its next message off.
  pub record InStep (d : Daemon V M C) (g : Agent V) : Type 0 where
    pub cert : BzCert
    pub key : Bytes
    pub version : V
    pub used : V
    pub ack : Message
    pub stored : g.client_bz_cert ≡ some cert
    pub same_cert : cert.hash ≡ c.cert_hash d.credential
    pub keyed : g.client_public_key ≡ some key
    pub key_pair : IsKeyPair x (c.private_key d.credential) key
    pub agent_key : d.agent_pub_key ≡ g.public_key
    pub versioned : d.schema_version ≡ some version
    pub answered : Agent.get_schema_version_to_use x g ≡ ok used
    pub same_version : x.print_version version ≡ x.print_version used
    pub next : ack_to_build_off x o c d ≡ ok ack
    pub is_ack : IsAck ack.payload
    pub chained : Message.payload_hash x ack.payload ≡ g.expected_hpointer

  -- The Data message that `pipeline` would send, where it sends one.
  unfoldable pub upcoming : Daemon V M C → String → Bytes → Outcome DaemonError Message
  upcoming d action bytes = elim (ack_to_build_off x o c d) [
    | ok ack ↦ build_response x o c d ack action bytes
    | err e ↦ err e
    | panic ↦ panic
  ]

  -- No message in flight has the hash of the one to be sent.
  abbrev pub IsFresh : Daemon V M C → Outcome DaemonError Message → Type 0
  IsFresh d (ok msg) = find (Message.hash x msg) (o.pairs d.pipeline_map) ≡ none
  IsFresh d _ = Unit
