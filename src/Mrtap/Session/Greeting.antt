-- ===== src/Mrtap/Session/Greeting.antt =====
-- The steps of a handshake on the daemon's side, and what a whole one is.
use bzero.Shared.{
  ℕ, ◌≡◌, ◌≢◌, Bool, true, false, none, some, String, [], ◌∷◌, ◌++◌, str_eq, eq_iff, arith, ok,
  length, if◌then◌else◌,
}
use bzero.Mrtap.Types.{Bytes, BzCert, SynAckPayload, Message, agreed_schema_version}
use bzero.Mrtap.Externals.{Externals}
use bzero.Mrtap.Keypair
use bzero.Mrtap.Message
use bzero.Mrtap.BzCert
use bzero.Mrtap.PipelineMap.{OrderedMap, following}
use bzero.Mrtap.Daemon.{Daemon, Credential, build_syn, send_syn, unsigned_syn, add_to_pipeline_map}
use bzero.Mrtap.Daemon.Recovery.{
  validate, resend, pipeline_each, accept_syn_ack, complete_handshake,
}
use bzero.Mrtap.Agent
use bzero.Mrtap.Agent.{Agent, AgentError}
use bzero.Mrtap.Session.{IsKeyPair, InStep}

module _ {V M C : Type 0} (x : Externals V) (o : OrderedMap M) (c : Credential C) where
  -- The daemon's half: its state and its Syn after the certificate was renewed.
  module _ (d : Daemon V M C) (action nonce : String) (json : Bytes) (send : Bool) (fresh : C) where
    abbrev pub renewed : Daemon V M C
    renewed = record d {
      credential = fresh;
      is_handshake_complete = false;
      last_ack = none;
      syn_action = if str_eq d.syn_action "initial" then action else d.syn_action;
    }

    abbrev pub syn_message : Message
    syn_message = Message.sign x (unsigned_syn x o c renewed json nonce) (c.private_key fresh)

    abbrev pub with_syn : Daemon V M C
    with_syn =
        let map = o.set d.pipeline_map (Message.hash x syn_message) syn_message in
        record renewed {
          pipeline_map = map;
          pipeline_length = length (o.pairs map);
          outbox_queue = if send then d.outbox_queue ++ (syn_message ∷ []) else d.outbox_queue;
        }

    pub build_syn_lem :
        Message.hash x syn_message ≢ ""
        → c.refresh d.credential ≡ (fresh, true)
        → build_syn x o c d action (some json) send nonce ≡ (with_syn, ok syn_message)
    unfolding build_syn send_syn add_to_pipeline_map
    build_syn_lem filled renews = ground (arith, renews, eq_iff (Message.hash x syn_message) "")

  -- With nothing in flight there is nothing to send again.
  pub resend-nothing :
      (d : Daemon V M C) (version : V) (nonce : String)
      → o.pairs d.pipeline_map ≡ []
      → resend x o c d version nonce ≡ (record d { pipeline_map = o.empty }, ok tt)
  unfolding resend pipeline_each following
  resend-nothing d version nonce e = ground (arith, e)

  -- A SynAck to a Syn that was alone in flight.
  pub accept_syn_ack-idle :
      (m : Daemon V M C) (msg : Message) (p : SynAckPayload) (version : V) (old : V → Bool)
      → o.pairs (o.delete m.pipeline_map p.h_pointer) ≡ []
      → x.new_version p.schema_version ≡ some version
      → x.new_constraint "< 2.0" ≡ some old
      → accept_syn_ack x o c m msg p ≡ (
        record m {
          last_ack = some msg;
          pipeline_map = o.empty;
          schema_version = some version;
          recovering = false;
          pre_pipelining_agent = old version;
          pipeline_limit = if old version then 1 else m.pipeline_limit;
          is_handshake_complete = true;
        },
        ok tt,
      )
  unfolding accept_syn_ack complete_handshake
  accept_syn_ack-idle m msg p version old alone parsed constraint = ground (
    arith,
    parsed,
    constraint,
    resend-nothing
        (record m {
          last_ack = some msg;
          pipeline_map = o.delete m.pipeline_map p.h_pointer;
          schema_version = some version;
          recovering = false;
        })
        version p.nonce alone,
  )

  -- A whole handshake: the daemon's Syn, the agent's SynAck, and both ends in step afterwards, with
  -- nothing in flight.
  pub record Shaken (d : Daemon V M C) (g : Agent V) (now : ℕ) (random action nonce : String)
      (json : Bytes) (send : Bool) : Type 0 where
    pub waiting : Daemon V M C
    pub ready : Daemon V M C
    pub welcomed_agent : Agent V
    pub ready_agent : Agent V
    pub greeting : Message
    pub answer : Message
    pub greets : build_syn x o c d action (some json) send nonce ≡ (waiting, ok greeting)
    pub accepts : Agent.validate x g now greeting ≡ (welcomed_agent, ok tt)
    pub answers : Agent.build_ack x welcomed_agent now random greeting [] ≡ (ready_agent, ok answer)
    pub validates : validate x o c waiting answer ≡ (ready, ok tt)
    pub complete :
        (ready.is_handshake_complete ≡ true)
        × (ready.recovering ≡ false)
        × (o.pairs ready.pipeline_map ≡ [])
    pub in_step : InStep x o c ready ready_agent

  -- What the handshake rests on: nothing is in flight, the daemon's certificate renews and the agent
  -- verifies it, the keys of both ends fit and their texts parse, and so do the protocol's version, as
  -- it is printed too, and the constraint on it.
  pub record CanShake (d : Daemon V M C) (g : Agent V) (fresh : C) (now : ℕ) (random : String)
      : Type 0 where
    pub cert : BzCert
    pub key : Bytes
    pub own : V
    pub back : V
    pub old : V → Bool
    pub agent_nonce : String
    pub renews : c.refresh d.credential ≡ (fresh, true)
    pub idle : o.pairs d.pipeline_map ≡ []
    pub no_key : d.ack_public_key ≡ none
    pub agent_key : d.agent_pub_key ≡ g.public_key
    pub parses :
        Keypair.public_key_from_string x (Keypair.key_string x g.public_key) ≡ some g.public_key
    pub agent_pair : IsKeyPair x g.private_key g.public_key
    pub client_pair : IsKeyPair x (c.private_key fresh) key
    pub verified :
        BzCert.verify x g.idp_provider g.idp_org_id g.service_accounts now (c.cert fresh) ≡ ok cert
    pub same_cert : cert.hash ≡ c.cert_hash fresh
    pub keyed : Keypair.public_key_from_string x cert.client_public_key ≡ some key
    pub own_version : x.new_version agreed_schema_version ≡ some own
    pub reparsed : x.new_version (x.print_version own) ≡ some back
    pub same_print : x.print_version back ≡ x.print_version own
    pub constraint : x.new_constraint "< 2.0" ≡ some old
    pub nonced : Agent.nonce_of x g random ≡ ok agent_nonce
