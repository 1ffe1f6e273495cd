-- ===== src/Mrtap/Sample/Ends.antt =====
-- An agent and a daemon of the small world, before and after a handshake, and messages between them.
use Prim.Native.String.{◌++◌}
use bzero.Shared.{
  ℕ, ◌≡◌, refl, true, none, some, String, List, [], ◌∷◌, arith, replicate, ltb, ok, inl,
}
use bzero.Mrtap.Types.{
  SynPayload, syn, syn_payload, DataPayload, DataAckPayload, SynAckPayload, syn_ack,
  syn_ack_payload, Bytes, BzCert, Message, data_, data_ack, data_payload, data_ack_payload,
}
use bzero.Mrtap.Keypair
use bzero.Mrtap.Message
use bzero.Mrtap.BzCert
use bzero.Mrtap.PipelineMap
use bzero.Mrtap.PipelineMap.{Pairs, find}
use bzero.Mrtap.Daemon
use bzero.Mrtap.Daemon.{Daemon, inbox, pipeline}
use bzero.Mrtap.Agent
use bzero.Mrtap.Agent.{Agent}
use bzero.Mrtap.Session
use bzero.Mrtap.Agent.{message_error}
use bzero.Mrtap.Message.{invalid_signature}
use bzero.Mrtap.Daemon.Recovery.{ErrorMessage}
use bzero.Mrtap.Session.Resume.{Lost, after, emptied}
use bzero.Mrtap.Session.Stream.{NoCollision}
use bzero.Mrtap.Session.{Encodings, IsKeyPair, InStep, IsFresh}
use bzero.Mrtap.Session.Greeting.{CanShake}
use bzero.Mrtap.Sample.{
  world, pairs_map, wallet, Wallet, encode, checksum, decode-encode, tally-filled, same_bytes_refl,
  first_byte,
}

abbrev pub client_key : Bytes
client_key = replicate 64 7

abbrev pub client_public : Bytes
client_public = replicate 32 7

abbrev pub agent_key : Bytes
agent_key = replicate 64 9

abbrev pub agent_public : Bytes
agent_public = replicate 32 9

abbrev pub rand : String
rand = encode (5 ∷ [])

abbrev pub rand_signature : String
rand_signature = encode (7 ∷ checksum 0 (encode (5 ∷ [])) ∷ [])

abbrev pub token : String
token = encode (checksum 0 (encode client_public ++ rand_signature ++ rand) ∷ [])

abbrev pub cert : BzCert
cert = record {
  initial_id_token = token;
  current_id_token = token;
  client_public_key = encode client_public;
  rand = rand;
  signature_on_rand = rand_signature;
  expiration = 0;
  hash = "";
}

abbrev pub purse : Wallet
purse = record { cert = cert; key = client_key }

abbrev pub agent : Agent ℕ
agent = record {
  last_data_message = none;
  expected_hpointer = "";
  client_bz_cert = none;
  client_public_key = none;
  public_key = agent_public;
  private_key = agent_key;
  idp_provider = "google";
  idp_org_id = "org";
  service_accounts = [];
  should_check_target_id = λ v. ltb 10 v;
  daemon_schema_version = none;
}

unfoldable pub daemon : Daemon ℕ Pairs Wallet
unfolding Daemon.new
daemon = Daemon.new world pairs_map wallet agent_public purse

abbrev pub verified_cert : BzCert
verified_cert = record cert { expiration = 1000; hash = encode (checksum 0 token ∷ []) }

pub encodings : Encodings world
unfolding Message.payload_hash Message.hash_payload Keypair.sign
encodings = record {
  hash_filled = λ p. tally-filled _ "";
  signature_filled = λ key content. tally-filled (first_byte key) (encode content);
}

pub key_pair :
    (key public : Bytes) → first_byte key ≡ first_byte public → IsKeyPair world key public
unfolding Message.verify_signature Message.sign Keypair.verify Keypair.sign Message.hash_payload
key_pair key public e m = ground (
  arith,
  decode-encode (first_byte key ∷ Message.hash_payload world m.payload),
  same_bytes_refl (Message.hash_payload world m.payload),
)

pub cert_verifies : BzCert.verify world "google" "org" [] 10 cert ≡ ok verified_cert
unfolding BzCert.verify BzCert.new_verifier BzCert.issuer_url BzCert.provider_type
    BzCert.verify_cert BzCert.is_service_account_token BzCert.verify_id_tokens
    BzCert.verify_initial_id_token BzCert.verify_current_id_token BzCert.get_token_claims
    BzCert.check_org BzCert.verify_auth_nonce BzCert.cert_hash Keypair.public_key_from_string
    Keypair.verify
cert_verifies = refl

-- A handshake from the two ends as they are created.
pub can_shake : CanShake world pairs_map wallet daemon agent purse 10 "random"
unfolding Daemon.new Keypair.public_key_from_string Keypair.key_string Agent.nonce_of daemon
can_shake = record {
  cert = verified_cert;
  key = client_public;
  own = 22;
  back = 22;
  old = λ v. ltb v 20;
  agent_nonce = "random";
  renews = refl;
  idle = refl;
  no_key = refl;
  agent_key = refl;
  parses = refl;
  agent_pair = key_pair agent_key agent_public refl;
  client_pair = key_pair client_key client_public refl;
  verified = cert_verifies;
  same_cert = refl;
  keyed = refl;
  own_version = refl;
  reparsed = refl;
  same_print = refl;
  constraint = refl;
  nonced = refl;
}

abbrev pub syn_ack_sent : SynAckPayload
syn_ack_sent = record {
  schema_version = "2.2.0";
  type = "SynAck";
  action = "shell/open";
  action_response_payload = [];
  timestamp = "now";
  target_public_key = encode agent_public;
  nonce = "random";
  h_pointer = "syn";
}

abbrev pub last_ack : Message
last_ack = record { type = syn_ack; payload = syn_ack_payload syn_ack_sent; signature = "" }

-- The two ends with that SynAck behind them.
unfoldable pub ready_daemon : Daemon ℕ Pairs Wallet
unfolding Daemon.new
ready_daemon = record daemon {
  last_ack = some last_ack;
  schema_version = some 22;
  is_handshake_complete = true;
}

unfoldable pub ready_agent : Agent ℕ
unfolding Message.payload_hash Message.hash_payload
ready_agent = record agent {
  client_bz_cert = some verified_cert;
  client_public_key = some client_public;
  daemon_schema_version = some 22;
  expected_hpointer = Message.payload_hash world (syn_ack_payload syn_ack_sent);
}

unfoldable pub in_step : InStep world pairs_map wallet ready_daemon ready_agent
unfolding Daemon.new Agent.get_schema_version_to_use Daemon.ack_to_build_off PipelineMap.newest
    Message.payload_hash Message.hash_payload ready_agent ready_daemon daemon
in_step = record {
  cert = verified_cert;
  key = client_public;
  version = 22;
  used = 22;
  ack = last_ack;
  stored = refl;
  same_cert = refl;
  keyed = refl;
  key_pair = key_pair client_key client_public refl;
  agent_key = refl;
  versioned = refl;
  answered = refl;
  same_version = refl;
  next = refl;
  is_ack = inl (syn_ack_sent, refl);
  chained = refl;
}

abbrev pub keystrokes : List (String × Bytes)
keystrokes = ("shell/input", 1 ∷ []) ∷ ("shell/input", 2 ∷ []) ∷ []

pub no_collision : NoCollision world pairs_map wallet ready_daemon keystrokes
unfolding Session.upcoming Daemon.new Daemon.ack_to_build_off Daemon.build_response
    Daemon.version_text Daemon.wrap_payload Daemon.pipeline Daemon.predict_ack Daemon.ship
    Daemon.add_to_pipeline_map PipelineMap.newest PipelineMap.find PipelineMap.put
    Message.payload_hash Message.hash_payload Message.hash Message.sign Message.build_unsigned_data
    Message.build_unsigned_data_ack Keypair.sign Keypair.key_string Daemon.as_daemon ready_daemon
    daemon
no_collision = (refl, (refl, tt))

unfoldable pub input : Bytes → Message
unfolding Message.payload_hash Message.hash_payload
input bytes = record {
  type = data_;
  payload = data_payload (record {
    schema_version = "2.2.0";
    type = "Data";
    action = "shell/input";
    timestamp = "";
    target_id = encode agent_public;
    h_pointer = Message.payload_hash world (syn_ack_payload syn_ack_sent);
    bz_cert_hash = verified_cert.hash;
    action_payload = bytes;
  });
  signature = "";
}

-- Two messages are in flight, and the agent's nonce names the first of them.
unfoldable pub stalled_daemon : Daemon ℕ Pairs Wallet
unfolding Daemon.new Message.hash Message.payload_hash Message.hash_payload
stalled_daemon = record ready_daemon {
  pipeline_map =
      (Message.hash world (input (1 ∷ [])), input (1 ∷ []))
      ∷ (Message.hash world (input (2 ∷ [])), input (2 ∷ []))
      ∷ [];
}

unfoldable pub lost : Pairs
unfolding Message.hash Message.payload_hash Message.hash_payload
lost = (Message.hash world (input (2 ∷ [])), input (2 ∷ [])) ∷ []

pub stalled-Lost :
    Lost world pairs_map wallet stalled_daemon (Message.hash world (input (1 ∷ []))) lost
unfolding PipelineMap.following Message.hash Message.payload_hash Message.hash_payload Daemon.new
    stalled_daemon input lost
stalled-Lost = after lost refl

pub no_collision_lost :
    IsFresh world pairs_map wallet (emptied world pairs_map wallet stalled_daemon) (
      Session.upcoming world pairs_map wallet
        (emptied world pairs_map wallet stalled_daemon)
        "shell/input"
        (2 ∷ []))
unfolding Session.upcoming Daemon.new Daemon.ack_to_build_off Daemon.build_response
    Daemon.version_text Daemon.wrap_payload PipelineMap.newest PipelineMap.find Message.payload_hash
    Message.hash_payload Message.hash Message.sign Message.build_unsigned_data Keypair.sign
    stalled_daemon ready_daemon
no_collision_lost = refl

abbrev pub first_input : DataPayload
first_input = record {
  schema_version = "2.2.0";
  type = "Data";
  action = "shell/input";
  timestamp = "";
  target_id = encode agent_public;
  h_pointer = ready_agent.expected_hpointer;
  bz_cert_hash = verified_cert.hash;
  action_payload = 1 ∷ [];
}

unfoldable pub signed_input : Message
unfolding Message.sign Message.payload_hash Message.hash_payload
signed_input =
    Message.sign world (record { type = data_; payload = data_payload first_input; signature = "" })
      client_key

abbrev pub greeting : SynPayload
greeting = record {
  schema_version = "2.2";
  type = "Syn";
  action = "shell/open";
  action_payload = [];
  timestamp = "";
  target_id = encode agent_public;
  nonce = "nonce";
  bz_cert = cert;
}

abbrev pub signed_syn : Message
signed_syn =
    Message.sign world (record { type = syn; payload = syn_payload greeting; signature = "" })
      client_key

-- A Syn signed by another key than the certificate's.
abbrev pub forged_syn : Message
forged_syn = record { type = syn; payload = syn_payload greeting; signature = encode (8 ∷ []) }

-- The daemon with a message in flight, and the agent's answer to it.
unfoldable pub answer : Message
unfolding Message.sign Message.hash Message.payload_hash Message.hash_payload
answer =
    Message.sign world
      (record {
        type = data_ack;
        payload = data_ack_payload (record {
          schema_version = "2.2.0";
          type = "DataAck";
          action = "shell/input";
          timestamp = "";
          target_public_key = encode agent_public;
          h_pointer = Message.hash world (input (1 ∷ []));
          action_response_payload = [];
        });
        signature = "";
      })
      agent_key

abbrev pub forged_answer : DataAckPayload
forged_answer = record {
  schema_version = "2.2.0";
  type = "DataAck";
  action = "shell/input";
  timestamp = "";
  target_public_key = "";
  h_pointer = "";
  action_response_payload = [];
}

abbrev pub refusal : ErrorMessage
refusal = record {
  schema_version = "202205";
  type = "MrtapValidationError";
  message = "invalid";
  hpointer = "unknown";
}

abbrev pub refusals : List (ErrorMessage × String)
refusals =
    (record refusal { schema_version = "" }, "n1")
    ∷ (record refusal { schema_version = "" }, "n2")
    ∷ (record refusal { schema_version = "" }, "n3")
    ∷ (record refusal { schema_version = "" }, "n4")
    ∷ []

abbrev pub google_verifier : BzCert.Verifier
google_verifier = record {
  org_id = "org";
  issuer = "https://accounts.google.com";
  provider = BzCert.google;
  allowed_jwks_url_patterns = [];
}
