-- ===== src/Mrtap/Session/Stream.antt =====
-- A run of messages that the daemon pipelines while no ack arrives.
use bzero.Shared.{ℕ, ◌≤◌, ◌≡◌, ◌≢◌, refl, subst, none, String, List, [], ◌∷◌, ◌++◌, ok}
use bzero.Mrtap.Types.{Bytes, Message}
use bzero.Mrtap.Externals.{Externals}
use bzero.Mrtap.Message
use bzero.Mrtap.PipelineMap.{OrderedMap, find}
use bzero.Mrtap.Daemon.{Daemon, Credential, pipeline, wrap_payload}
use bzero.Mrtap.Daemon.Pipeline.{shipped, pipeline_lem}
use bzero.Mrtap.Agent
use bzero.Mrtap.Agent.{Agent, AgentError}
use bzero.Mrtap.Session.{Encodings, InStep, upcoming, IsFresh}
use bzero.Mrtap.Session.Delivery.{
  sent, build_response-sent, upcoming-sent, accepted, answer, answered, sent-filled, sent-fields,
  sent-accepted, build_ack-answer, InStep-answered,
}

-- The actions and payloads that a plugin hands to `Inbox`, in order; no action is empty.
abbrev pub AllNamed : List (String × Bytes) → Type 0
AllNamed [] = Unit
AllNamed ((action, bytes) ∷ rest) = (action ≢ "") × AllNamed rest

module _ {V M C : Type 0} (x : Externals V) (o : OrderedMap M) (c : Credential C) where
  -- No message of the run has the hash of one in flight.
  abbrev pub NoCollision : Daemon V M C → List (String × Bytes) → Type 0
  NoCollision d [] = Unit
  NoCollision d ((action, bytes) ∷ rest) =
      IsFresh x o c d (upcoming x o c d action bytes)
      × NoCollision (pipeline x o c d action bytes).0 rest

  -- One message: the daemon sends it, and the agent accepts and answers it.
  pub record Relayed (now : ℕ) (random : String) (d : Daemon V M C) (g : Agent V) (action : String)
      (bytes : Bytes) (d' : Daemon V M C) (g' : Agent V) : Type 0 where
    pub msg : Message
    pub ack : Message
    pub between : Agent V
    pub sends : pipeline x o c d action bytes ≡ (d', ok tt)
    pub queued : d'.outbox_queue ≡ d.outbox_queue ++ (msg ∷ [])
    pub carries :
        (Message.get_action msg ≡ action)
        × (Message.get_action_payload msg ≡ wrap_payload x o c d.pre_pipelining_agent bytes)
    pub accepts : Agent.validate x g now msg ≡ (between, ok tt)
    pub answers : Agent.build_ack x between now random msg [] ≡ (g', ok ack)

  -- All of them, the agent's answers still on their way.
  pub data Delivered (now : ℕ) (random : String)
      : Daemon V M C → Agent V → List (String × Bytes) → Type 0 where
    done : {d : Daemon V M C} {g : Agent V} → Delivered now random d g []
    next :
        {d : Daemon V M C} {g : Agent V} {call : String × Bytes} {rest : List (String × Bytes)}
        (d' : Daemon V M C) (g' : Agent V)
        → Relayed now random d g call.0 call.1 d' g'
        → Delivered now random d' g' rest
        → Delivered now random d g (call ∷ rest)

  relay :
      (enc : Encodings x) (now : ℕ) (random : String) (d : Daemon V M C) (g : Agent V)
      (action : String) (bytes : Bytes) (s : InStep x o c d g)
      → now ≤ s.cert.expiration
      → action ≢ ""
      → Relayed now random d g action bytes
          (shipped x o c d (sent x o c d g s action bytes))
          (answered x o c d g s action bytes)
  relay enc now random d g action bytes s live named = record {
    msg = sent x o c d g s action bytes;
    ack = Message.sign x (answer x o c d g s action bytes) g.private_key;
    between = accepted x o c d g s action bytes;
    sends =
        pipeline_lem x o c d action bytes s.ack (sent x o c d g s action bytes) named s.next
          (build_response-sent x o c d g s action bytes) (sent-filled x o c d g s action bytes enc);
    queued = refl;
    carries = sent-fields x o c d g s action bytes;
    accepts = sent-accepted x o c d g s action bytes now live;
    answers = build_ack-answer x o c d g s action bytes enc now random;
  }

  -- A daemon and an agent in step stay so through every run of messages that the daemon sends before it
  -- has an ack: each message is sent, in the order of the plugin's calls and with its action and
  -- payload, the agent accepts it, and its answer with an empty payload is the ack that the daemon
  -- predicted. The certificate does not expire on the way, no action is empty, and no message has the
  -- hash of another in flight.
  pub stream-Delivered :
      (enc : Encodings x) (now : ℕ) (random : String) (d : Daemon V M C) (g : Agent V)
      (sends : List (String × Bytes)) (s : InStep x o c d g)
      → now ≤ s.cert.expiration
      → AllNamed sends
      → NoCollision d sends
      → Delivered now random d g sends
  stream-Delivered enc now random d g [] s live named fresh = done
  stream-Delivered enc now random d g ((action, bytes) ∷ rest) s live named fresh =
      let (t, same) = InStep-answered x o c d g s action bytes first in
      next (shipped x o c d msg) (answered x o c d g s action bytes)
        (relay enc now random d g action bytes s live named.0)
        (stream-Delivered enc now random (shipped x o c d msg) (answered x o c d g s action bytes)
          rest t (rw same live) named.1 later)
    where
      msg : Message
      msg = sent x o c d g s action bytes

      first : find (Message.hash x msg) (o.pairs d.pipeline_map) ≡ none
      first = subst (IsFresh x o c d) (upcoming-sent x o c d g s action bytes) fresh.0

      later : NoCollision (shipped x o c d msg) rest
      later =
          subst (λ r. NoCollision r.0 rest)
            (relay enc now random d g action bytes s live named.0).sends fresh.1
