-- ===== src/Mrtap/Session/Delivery.antt =====
-- One message that the daemon pipelines before any ack arrives, at both ends.
use bzero.Shared.{
  ℕ, ◌≤◌, ◌≡◌, ◌≢◌, refl, sym, ap, ◌∙◌, inl, inr, none, some, String, [], eq_iff, arith, ok,
}
use bzero.Mrtap.Types.{
  Bytes, Payload, syn_ack_payload, data_ack_payload, data_payload, data_, data_ack, DataPayload,
  Message,
}
use bzero.Mrtap.Externals.{Externals}
use bzero.Mrtap.Keypair
use bzero.Mrtap.Message
use bzero.Mrtap.PipelineMap.{OrderedMap, find, newest}
use bzero.Mrtap.PipelineMap.Laws.{newest-put}
use bzero.Mrtap.Daemon.{
  Daemon, Credential, ack_to_build_off, predict_ack, build_response, version_text, wrap_payload,
  as_daemon,
}
use bzero.Mrtap.Daemon.Pipeline.{shipped}
use bzero.Mrtap.Agent
use bzero.Mrtap.Agent.{Agent, AgentError}
use bzero.Mrtap.Agent.Accept.{Admissible, Admissible-validate, IsData}
use bzero.Mrtap.Session.{Encodings, IsAck, InStep, upcoming}

module _ {V M C : Type 0} (x : Externals V) (o : OrderedMap M) (c : Credential C) where
  -- The Data payload that answers an ack.
  abbrev pub off_ack : Payload → String → Bytes → String → String → DataPayload
  off_ack (syn_ack_payload s) action bytes cert_hash version =
      Message.respond_syn_ack x s action bytes cert_hash version
  off_ack (data_ack_payload d) action bytes cert_hash version =
      Message.respond_data_ack x d action bytes cert_hash version
  off_ack p action bytes cert_hash version = record {
    schema_version = "";
    type = "";
    action = "";
    timestamp = "";
    target_id = "";
    h_pointer = "";
    bz_cert_hash = "";
    action_payload = [];
  }

  abbrev pub data_message : DataPayload → Message
  data_message p = record { type = data_; payload = data_payload p; signature = "" }

  build_unsigned_data_lem :
      (p : Payload) (action : String) (bytes : Bytes) (cert_hash version : String)
      → IsAck p
      → Message.build_unsigned_data x p action bytes cert_hash version
        ≡ ok (data_message (off_ack p action bytes cert_hash version))
  unfolding Message.build_unsigned_data
  build_unsigned_data_lem p action bytes h v (inl (s, e)) = rw e
  build_unsigned_data_lem p action bytes h v (inr (d, e)) = rw e

  pub off_ack_fields :
      (p : Payload) (action : String) (bytes : Bytes) (cert_hash version : String)
      → IsAck p
      → let d = off_ack p action bytes cert_hash version in
        (d.h_pointer ≡ Message.payload_hash x p)
        × (d.bz_cert_hash ≡ cert_hash)
        × (d.action ≡ action)
        × (d.action_payload ≡ bytes)
  unfolding Message.respond_syn_ack Message.respond_data_ack
  off_ack_fields p action bytes h v (inl (s, e)) = rw e (refl, refl, refl, refl)
  off_ack_fields p action bytes h v (inr (d, e)) = rw e (refl, refl, refl, refl)

  -- The next message of a daemon in step with the agent, and the answer to it.
  module _ (d : Daemon V M C) (g : Agent V) (s : InStep x o c d g) (action : String)
      (bytes : Bytes) where
    unfoldable pub sent_payload : DataPayload
    sent_payload =
        off_ack s.ack.payload action (wrap_payload x o c d.pre_pipelining_agent bytes)
          (c.cert_hash d.credential) (x.print_version s.version)

    unfoldable pub sent : Message
    unfolding sent_payload
    sent = Message.sign x (data_message sent_payload) (c.private_key d.credential)

    pub build_response-sent : build_response x o c d s.ack action bytes ≡ ok sent
    unfolding build_response version_text sent
    build_response-sent = ground (
      arith,
      s.versioned,
      build_unsigned_data_lem s.ack.payload action (wrap_payload x o c d.pre_pipelining_agent bytes)
          (c.cert_hash d.credential) (x.print_version s.version) s.is_ack,
    )

    pub upcoming-sent : upcoming x o c d action bytes ≡ ok sent
    unfolding upcoming
    upcoming-sent = ground (arith, s.next, build_response-sent)

    -- The agent's state once it has accepted the message, and its answer before it is signed.
    unfoldable pub accepted : Agent V
    accepted = record g { last_data_message = some sent }

    unfoldable pub answer : Message
    answer = record {
      type = data_ack;
      payload = data_ack_payload (
          Message.respond_data x sent_payload [] (Keypair.key_string x g.public_key)
            (x.print_version s.used));
      signature = "";
    }

    unfoldable pub answered : Agent V
    unfolding accepted answer
    answered = record accepted { expected_hpointer = Message.hash x answer }

    pub sent-IsData : IsData x sent sent_payload
    unfolding sent Message.sign
    sent-IsData = (refl, refl)

    pub sent-Admissible : (now : ℕ) → now ≤ s.cert.expiration → Admissible x g now sent sent_payload
    unfolding sent sent_payload
    sent-Admissible now live = record {
      cert = s.cert;
      stored = s.stored;
      same_cert = s.same_cert ∙ sym (fields.1);
      signed =
          ap (Message.verify_signature x sent) s.keyed ∙ s.key_pair (data_message sent_payload);
      live = live;
      chained = fields.0 ∙ s.chained;
    }
      where
        fields :
            (sent_payload.h_pointer ≡ Message.payload_hash x s.ack.payload)
            × (sent_payload.bz_cert_hash ≡ c.cert_hash d.credential)
            × (sent_payload.action ≡ action)
            × (sent_payload.action_payload ≡ wrap_payload x o c d.pre_pipelining_agent bytes)
        fields =
            off_ack_fields s.ack.payload action (wrap_payload x o c d.pre_pipelining_agent bytes)
              (c.cert_hash d.credential) (x.print_version s.version) s.is_ack

    pub build_ack-answer :
        (enc : Encodings x) (now : ℕ) (random : String)
        → Agent.build_ack x accepted now random sent []
          ≡ (answered, ok (Message.sign x answer g.private_key))
    unfolding Agent.build_ack Agent.unsigned_ack Agent.sign_ack accepted answered answer sent
        Message.sign Message.hash Message.build_unsigned_data_ack Agent.get_schema_version_to_use
    build_ack-answer enc now random = ground (
      arith,
      s.answered,
      enc.hash_filled answer.payload,
      enc.signature_filled g.private_key (Message.hash_payload x answer.payload),
      eq_iff (Message.payload_hash x answer.payload) "",
      eq_iff (Keypair.sign x g.private_key (Message.hash_payload x answer.payload)) "",
    )

    newest-shipped :
        find (Message.hash x sent) (o.pairs d.pipeline_map) ≡ none
        → newest (o.pairs (shipped x o c d sent).pipeline_map) ≡ some sent
    newest-shipped fresh =
        ap newest (o.pairs-set d.pipeline_map (Message.hash x sent) sent)
        ∙ newest-put (Message.hash x sent) sent (o.pairs d.pipeline_map) fresh

    -- The ack that the daemon predicts is the one that the agent gives, but for its signature.
    predict-sent : predict_ack x o c (shipped x o c d sent) sent ≡ ok answer
    unfolding predict_ack version_text as_daemon Message.build_unsigned_data_ack sent Message.sign
        answer
    predict-sent = ground (arith, s.versioned, s.same_version, s.agent_key)

    next-answer :
        find (Message.hash x sent) (o.pairs d.pipeline_map) ≡ none
        → ack_to_build_off x o c (shipped x o c d sent) ≡ ok answer
    unfolding ack_to_build_off
    next-answer fresh = ground (arith, newest-shipped fresh, predict-sent)

    pub InStep-answered :
        find (Message.hash x sent) (o.pairs d.pipeline_map) ≡ none
        → (t : InStep x o c (shipped x o c d sent) answered) × (t.cert ≡ s.cert)
    unfolding answered accepted answer Agent.get_schema_version_to_use Message.hash
    InStep-answered fresh = (
      record {
        cert = s.cert;
        key = s.key;
        version = s.version;
        used = s.used;
        ack = answer;
        stored = s.stored;
        same_cert = s.same_cert;
        keyed = s.keyed;
        key_pair = s.key_pair;
        agent_key = s.agent_key;
        versioned = s.versioned;
        answered = s.answered;
        same_version = s.same_version;
        next = next-answer fresh;
        is_ack = inr (_, refl);
        chained = refl;
      },
      refl,
    )

    pub sent-fields :
        (Message.get_action sent ≡ action)
        × (Message.get_action_payload sent ≡ wrap_payload x o c d.pre_pipelining_agent bytes)
    unfolding Message.get_action Message.get_action_payload Message.sign sent sent_payload
    sent-fields = ground (
      arith,
      off_ack_fields s.ack.payload action (wrap_payload x o c d.pre_pipelining_agent bytes)
          (c.cert_hash d.credential) (x.print_version s.version) s.is_ack,
    )

    pub sent-filled : Encodings x → Message.hash x sent ≢ ""
    unfolding Message.hash
    sent-filled enc = enc.hash_filled sent.payload

    pub sent-accepted :
        (now : ℕ) → now ≤ s.cert.expiration → Agent.validate x g now sent ≡ (accepted, ok tt)
    unfolding accepted
    sent-accepted now live =
        Admissible-validate x g now sent sent_payload sent-IsData (sent-Admissible now live)
