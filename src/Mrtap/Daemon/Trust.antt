-- ===== src/Mrtap/Daemon/Trust.antt =====
-- Which messages of the agent the daemon takes, and the one that makes it panic.
use bzero.Shared.{
  ◌≡◌, ◌⊎◌, refl, subst, ap, sym, ◌∙◌, false, Option, none, some, String, arith, Outcome, ok, err,
  panic,
}
use bzero.Mrtap.Types.{Bytes, Message, DataAckPayload, data_ack_payload}
use bzero.Mrtap.Externals.{Externals}
use bzero.Mrtap.Keypair
use bzero.Mrtap.Message
use bzero.Mrtap.PipelineMap.{OrderedMap, find}
use bzero.Mrtap.Daemon.{Daemon, DaemonError, Credential, as_daemon}
use bzero.Mrtap.Daemon.Recovery.{validate, learn_key, check_signature, accept_pointer}

module _ {V M C : Type 0} (x : Externals V) (o : OrderedMap M) (c : Credential C) where
  -- The message is signed by the agent that the daemon was told of, or under the key that the first
  -- SynAck brought, and answers a message in flight.
  pub record Trusted (m : Daemon V M C) (msg : Message) : Type 0 where
    pub hpointer : String
    pub acked : Message
    pub learned : Daemon V M C
    pub learns : learn_key x o c m msg.payload ≡ ok learned
    pub signed :
        (Message.verify_signature x msg (some m.agent_pub_key) ≡ ok tt)
        ⊎ (Message.verify_signature x msg learned.ack_public_key ≡ ok tt)
    pub pointed : Message.get_hpointer msg ≡ ok hpointer
    pub in_flight : find hpointer (o.pairs m.pipeline_map) ≡ some acked

  learn_key-frame :
      (m m' : Daemon V M C) (msg : Message)
      → learn_key x o c m msg.payload ≡ ok m'
      → (m'.agent_pub_key ≡ m.agent_pub_key)
        × (m'.pipeline_map ≡ m.pipeline_map)
        × (m'.outbox_queue ≡ m.outbox_queue)
  unfolding learn_key
  learn_key-frame m m' msg h = ground arith

  check_signature-ok :
      (m : Daemon V M C) (msg : Message)
      → check_signature x o c m msg ≡ ok tt
      → (Message.verify_signature x msg (some m.agent_pub_key) ≡ ok tt)
        ⊎ (Message.verify_signature x msg m.ack_public_key ≡ ok tt)
  unfolding check_signature
  check_signature-ok m msg h = ground arith

  accept_pointer-found :
      (m : Daemon V M C) (msg : Message) (hpointer : String) (r : Option Message)
      → find hpointer (o.pairs m.pipeline_map) ≡ r
      → (accept_pointer x o c m msg hpointer).1 ≡ ok tt
      → (acked : Message) × (r ≡ some acked)
  unfolding accept_pointer
  accept_pointer-found m msg hpointer none e h = absurd (ground (arith, e))
  accept_pointer-found m msg hpointer (some acked) e h = (acked, refl)

  -- `Validate` step by step.
  Trusted-pointed :
      (m m1 : Daemon V M C) (msg : Message) (r : Outcome Message.MessageError String)
      → learn_key x o c m msg.payload ≡ ok m1
      → check_signature x o c m1 msg ≡ ok tt
      → Message.get_hpointer msg ≡ r
      → (validate x o c m msg).1 ≡ ok tt
      → Trusted m msg
  unfolding validate as_daemon
  Trusted-pointed m m1 msg (ok p) l s e h =
      let frame = learn_key-frame m m1 msg l in
      let (acked, f) = accept_pointer-found m1 msg p _ refl (ground (arith, l, s, e)) in
      record {
        hpointer = p;
        acked = acked;
        learned = m1;
        learns = l;
        signed =
            subst
              (λ k.
                (Message.verify_signature x msg (some k) ≡ ok tt)
                ⊎ (Message.verify_signature x msg m1.ack_public_key ≡ ok tt))
              frame.0 (check_signature-ok m1 msg s);
        pointed = e;
        in_flight = ap (λ t. find p (o.pairs t)) (sym frame.1) ∙ f;
      }
  Trusted-pointed m m1 msg (err f) l s e h = absurd (ground (arith, l, s, e))
  Trusted-pointed m m1 msg panic l s e h = absurd (ground (arith, l, s, e))

  Trusted-signed :
      (m m1 : Daemon V M C) (msg : Message) (r : Outcome DaemonError (Unit {0}))
      → learn_key x o c m msg.payload ≡ ok m1
      → check_signature x o c m1 msg ≡ r
      → (validate x o c m msg).1 ≡ ok tt
      → Trusted m msg
  unfolding validate
  Trusted-signed m m1 msg (ok tt) l s h = Trusted-pointed m m1 msg _ l s refl h
  Trusted-signed m m1 msg (err e) l s h = absurd (ground (arith, l, s))
  Trusted-signed m m1 msg panic l s h = absurd (ground (arith, l, s))

  Trusted-learned :
      (m : Daemon V M C) (msg : Message) (r : Outcome DaemonError (Daemon V M C))
      → learn_key x o c m msg.payload ≡ r
      → (validate x o c m msg).1 ≡ ok tt
      → Trusted m msg
  unfolding validate
  Trusted-learned m msg (ok m1) l h = Trusted-signed m m1 msg _ l refl h
  Trusted-learned m msg (err e) l h = absurd (ground (arith, l))
  Trusted-learned m msg panic l h = absurd (ground (arith, l))

  -- The daemon takes no message but one that answers a message of its own in flight and is signed by
  -- the agent's key, or by the key that the first SynAck names.
  pub validate-Trusted :
      (m : Daemon V M C) (msg : Message) → (validate x o c m msg).1 ≡ ok tt → Trusted m msg
  validate-Trusted m msg h = Trusted-learned m msg _ refl h

  -- Before any SynAck, a DataAck whose signature decodes and does not verify under the agent's key is
  -- not refused: the check under the second key, which is nil, panics.
  pub data_ack_panics :
      (m : Daemon V M C) (msg : Message) (p : DataAckPayload) (bits : Bytes)
      → msg.payload ≡ data_ack_payload p
      → m.ack_public_key ≡ none
      → x.base64_decode msg.signature ≡ some bits
      → x.ed25519_verify m.agent_pub_key (Message.hash_payload x msg.payload) bits ≡ false
      → validate x o c m msg ≡ (m, panic)
  unfolding validate learn_key check_signature Message.verify_signature Keypair.verify
  data_ack_panics m msg p bits e unset decoded forged = ground (arith, e, unset, decoded, forged)
