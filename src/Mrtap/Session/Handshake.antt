-- ===== src/Mrtap/Session/Handshake.antt =====
-- The handshake: a Syn, the agent's SynAck, and the two ends in step.
use bzero.Shared.{
  ℕ, ◌≡◌, ◌≢◌, refl, ap, ◌∙◌, inl, inr, Bool, true, false, none, some, String, [], eq_iff, arith,
  ok, length, if◌then◌else◌,
}
use bzero.Mrtap.Types.{Bytes, syn_ack, syn_ack_payload, Message}
use bzero.Mrtap.Externals.{Externals}
use bzero.Mrtap.Keypair
use bzero.Mrtap.Message
use bzero.Mrtap.PipelineMap.{OrderedMap, remove, find, newest}
use bzero.Mrtap.PipelineMap.Laws.{find-put_self, remove-put_fresh}
use bzero.Mrtap.Daemon.{Daemon, Credential, unsigned_syn, syn_of, ack_to_build_off}
use bzero.Mrtap.Daemon.Recovery.{
  validate, accept_pointer, accept_ack, accept_syn_ack, settle, learn_key, check_signature,
}
use bzero.Mrtap.Agent
use bzero.Mrtap.Agent.{Agent, AgentError}
use bzero.Mrtap.Agent.Greeting.{Welcome, greeted, validate-syn_iff, IsSyn}
use bzero.Mrtap.Session.{Encodings, InStep}
use bzero.Mrtap.Session.Greeting.{
  renewed, syn_message, with_syn, build_syn_lem, accept_syn_ack-idle, Shaken, CanShake,
}

module _ {V M C : Type 0} (x : Externals V) (o : OrderedMap M) (c : Credential C) where
  module _ (enc : Encodings x) (d : Daemon V M C) (g : Agent V) (fresh : C) (now : ℕ)
      (random : String) (h : CanShake x o c d g fresh now random) (action nonce : String)
      (json : Bytes) (send : Bool) where
    abbrev syn_sent : Message
    syn_sent = syn_message x o c d action nonce json send fresh

    syn-filled : Message.hash x syn_sent ≢ ""
    unfolding Message.hash
    syn-filled = enc.hash_filled syn_sent.payload

    syn_sent-IsSyn :
        IsSyn x syn_sent (syn_of x o c (renewed x o c d action nonce json send fresh) json nonce)
    unfolding Message.sign unsigned_syn
    syn_sent-IsSyn = (refl, refl)

    syn-Welcome :
        Welcome x g now syn_sent
          (syn_of x o c (renewed x o c d action nonce json send fresh) json nonce)
    unfolding syn_of
    syn-Welcome = record {
      cert = h.cert;
      key = h.key;
      version = h.own;
      verified = h.verified;
      keyed = h.keyed;
      signed =
          h.client_pair
            (unsigned_syn x o c (renewed x o c d action nonce json send fresh) json nonce);
      versioned = h.own_version;
      targeted = inr (ap (Keypair.key_string x) h.agent_key);
    }

    abbrev welcomed : Agent V
    welcomed = greeted x g h.cert h.key h.own

    syn-accepted : Agent.validate x g now syn_sent ≡ (welcomed, ok tt)
    unfolding syn-Welcome
    syn-accepted = (validate-syn_iff x g now syn_sent _ syn_sent-IsSyn).1 syn-Welcome

    abbrev syn_answer : Message
    syn_answer = record {
      type = syn_ack;
      payload = syn_ack_payload (
          Message.respond_syn x
            (syn_of x o c (renewed x o c d action nonce json send fresh) json nonce) []
            (Keypair.key_string x g.public_key) h.agent_nonce (x.print_version h.own) now);
      signature = "";
    }

    abbrev syn_answered : Agent V
    syn_answered = record welcomed { expected_hpointer = Message.hash x syn_answer }

    syn-answers :
        Agent.build_ack x welcomed now random syn_sent []
        ≡ (syn_answered, ok (Message.sign x syn_answer g.private_key))
    unfolding Agent.build_ack Agent.unsigned_ack Agent.sign_ack Agent.get_schema_version_to_use
        Agent.nonce_of Message.sign Message.hash Message.build_unsigned_syn_ack unsigned_syn
    syn-answers = ground (
      arith,
      h.own_version,
      h.nonced,
      enc.hash_filled syn_answer.payload,
      enc.signature_filled g.private_key (Message.hash_payload x syn_answer.payload),
      eq_iff (Message.payload_hash x syn_answer.payload) "",
      eq_iff (Keypair.sign x g.private_key (Message.hash_payload x syn_answer.payload)) "",
    )

    -- The daemon once it has learned the agent's key, and once the handshake is complete.
    abbrev learned : Daemon V M C
    learned = record (with_syn x o c d action nonce json send fresh) {
      ack_public_key = some g.public_key;
    }

    abbrev signed_answer : Message
    signed_answer = Message.sign x syn_answer g.private_key

    abbrev joined : Daemon V M C
    joined = record learned {
      last_ack = some signed_answer;
      pipeline_map = o.empty;
      schema_version = some h.back;
      recovering = false;
      pre_pipelining_agent = h.old h.back;
      pipeline_limit = if h.old h.back then 1 else d.pipeline_limit;
      is_handshake_complete = true;
      pipeline_length = length (o.pairs o.empty);
    }

    key_learned :
        learn_key x o c (with_syn x o c d action nonce json send fresh) signed_answer.payload
        ≡ ok learned
    unfolding learn_key Message.sign Message.respond_syn
    key_learned = ground (arith, h.no_key, h.parses)

    answer_verified : check_signature x o c learned signed_answer ≡ ok tt
    unfolding check_signature
    answer_verified = rw (h.agent_key, check_signature) (ground (arith, h.agent_pair syn_answer))

    deleted :
        o.pairs (
          o.delete
            (o.set d.pipeline_map (Message.hash x syn_sent) syn_sent)
            (Message.hash x syn_sent))
        ≡ []
    unfolding find
    deleted =
        o.pairs-delete (o.set d.pipeline_map (Message.hash x syn_sent) syn_sent)
          (Message.hash x syn_sent)
        ∙ ap (remove (Message.hash x syn_sent))
            (o.pairs-set d.pipeline_map (Message.hash x syn_sent) syn_sent)
        ∙ remove-put_fresh (Message.hash x syn_sent) syn_sent (o.pairs d.pipeline_map) absent
        ∙ h.idle
      where
        absent : find (Message.hash x syn_sent) (o.pairs d.pipeline_map) ≡ none
        absent = ap (find (Message.hash x syn_sent)) h.idle

    found :
        find
          (Message.hash x syn_sent)
          (o.pairs (o.set d.pipeline_map (Message.hash x syn_sent) syn_sent))
        ≡ some syn_sent
    found =
        ap (find (Message.hash x syn_sent))
          (o.pairs-set d.pipeline_map (Message.hash x syn_sent) syn_sent)
        ∙ find-put_self (Message.hash x syn_sent) syn_sent (o.pairs d.pipeline_map)

    answer_accepted :
        accept_syn_ack x o c learned signed_answer (
          Message.respond_syn x
            (syn_of x o c (renewed x o c d action nonce json send fresh) json nonce)
            []
            (Keypair.key_string x g.public_key)
            h.agent_nonce
            (x.print_version h.own)
            now)
        ≡ (record joined { pipeline_length = learned.pipeline_length }, ok tt)
    unfolding Message.respond_syn Message.hash Message.sign unsigned_syn
    answer_accepted =
        accept_syn_ack-idle x o c learned signed_answer
          (Message.respond_syn x
            (syn_of x o c (renewed x o c d action nonce json send fresh) json nonce) []
            (Keypair.key_string x g.public_key) h.agent_nonce (x.print_version h.own) now)
          h.back h.old deleted h.reparsed h.constraint

    pointed : Message.get_hpointer signed_answer ≡ ok (Message.hash x syn_sent)
    unfolding Message.get_hpointer Message.respond_syn Message.sign Message.hash unsigned_syn
    pointed = refl

    pointer_accepted :
        accept_pointer x o c learned signed_answer (Message.hash x syn_sent) ≡ (joined, ok tt)
    unfolding accept_pointer accept_ack settle Message.sign
    pointer_accepted = ground (arith, found, answer_accepted)

    answer_validated :
        validate x o c (with_syn x o c d action nonce json send fresh) signed_answer
        ≡ (joined, ok tt)
    unfolding validate
    answer_validated = ground (arith, key_learned, answer_verified, pointed, pointer_accepted)

    next-joined : ack_to_build_off x o c joined ≡ ok signed_answer
    unfolding ack_to_build_off newest
    next-joined = ground (arith, o.pairs-empty)

    joined-InStep : InStep x o c joined syn_answered
    unfolding Agent.get_schema_version_to_use Message.hash Message.sign
    joined-InStep = record {
      cert = h.cert;
      key = h.key;
      version = h.back;
      used = h.own;
      ack = signed_answer;
      stored = refl;
      same_cert = h.same_cert;
      keyed = refl;
      key_pair = h.client_pair;
      agent_key = h.agent_key;
      versioned = refl;
      answered = ground (arith, h.own_version);
      same_version = h.same_print;
      next = next-joined;
      is_ack = inl (_, refl);
      chained = refl;
    }

    -- With nothing in flight, a certificate that the agent verifies and keys that fit, the daemon's Syn
    -- is accepted, the agent's SynAck to it is accepted, and the daemon and the agent are in step:
    -- the handshake is complete and the agent expects the hash pointer of the daemon's next message.
    pub handshake_completes : Shaken x o c d g now random action nonce json send
    handshake_completes = record {
      waiting = with_syn x o c d action nonce json send fresh;
      ready = joined;
      welcomed_agent = welcomed;
      ready_agent = syn_answered;
      greeting = syn_sent;
      answer = signed_answer;
      greets = build_syn_lem x o c d action nonce json send fresh syn-filled h.renews;
      accepts = syn-accepted;
      answers = syn-answers;
      validates = answer_validated;
      complete = (refl, refl, o.pairs-empty);
      in_step = joined-InStep;
    }
