-- ===== src/Mrtap/Session/Resume.antt =====
-- After an error: the messages that the daemon sends again, and the agent's answer to them.
use bzero.Shared.{
  ℕ, ◌≤◌, ◌≡◌, refl, sym, ap, ◌∙◌, Bool, true, false, none, some, String, List, [], ◌∷◌, ◌++◌,
  arith, ok, append_assoc, append-nil,
}
use bzero.Mrtap.Types.{Bytes, Message}
use bzero.Mrtap.Externals.{Externals}
use bzero.Mrtap.Message
use bzero.Mrtap.PipelineMap.{OrderedMap, Pairs, following}
use bzero.Mrtap.Daemon.{Daemon, Credential, pipeline, wrap_payload}
use bzero.Mrtap.Daemon.Pipeline.{pipeline-frame}
use bzero.Mrtap.Daemon.Recovery.{resend, pipeline_each, is_last_acked}
use bzero.Mrtap.Agent.{Agent}
use bzero.Mrtap.Session.{Encodings, InStep}
use bzero.Mrtap.Session.Stream.{AllNamed, NoCollision, Delivered, next, stream-Delivered}

-- The calls of `pipeline` that messages stand for.
abbrev pub calls : Pairs → List (String × Bytes)
calls [] = []
calls ((k, m) ∷ ps) = (Message.get_action m, Message.get_action_payload m) ∷ calls ps

abbrev pub carried : List Message → List (String × Bytes)
carried [] = []
carried (m ∷ ms) = (Message.get_action m, Message.get_action_payload m) ∷ carried ms

module _ {V M C : Type 0} (x : Externals V) (o : OrderedMap M) (c : Credential C) where
  -- The messages of the pipeline that are lost: those after the one of the agent's nonce, or all of them
  -- where the nonce is that of the last Data message that was acked.
  pub data Lost (d : Daemon V M C) (nonce : String) : Pairs → Type 0 where
    after :
        (later : Pairs) → following nonce (o.pairs d.pipeline_map) ≡ some later → Lost d nonce later
    everything :
        following nonce (o.pairs d.pipeline_map) ≡ none
        → is_last_acked x o c d nonce ≡ true
        → Lost d nonce (o.pairs d.pipeline_map)

  abbrev pub emptied : Daemon V M C → Daemon V M C
  emptied d = record d { pipeline_map = o.empty }

  resend-Lost :
      (d : Daemon V M C) (version : V) (nonce : String) (check : V → Bool) {lost : Pairs}
      → Lost d nonce lost
      → x.new_constraint "> 2.0" ≡ some check
      → resend x o c d version nonce ≡ pipeline_each x o c (emptied d) lost
  unfolding resend
  resend-Lost d version nonce check (after later e) k = ground (arith, e, k)
  resend-Lost d version nonce check (everything e l) k = ground (arith, e, l, k)

  -- What a run of deliveries leaves in the outbox.
  pipeline_each-sent :
      (now : ℕ) (random : String) (ps : Pairs) (d : Daemon V M C) (g : Agent V)
      → d.pre_pipelining_agent ≡ false
      → Delivered x o c now random d g (calls ps)
      → (ms : List Message) × ((pipeline_each x o c d ps).1 ≡ ok tt)
        × ((pipeline_each x o c d ps).0.outbox_queue ≡ d.outbox_queue ++ ms)
        × (carried ms ≡ calls ps)
  unfolding pipeline_each wrap_payload
  pipeline_each-sent now random [] d g young t = ([], refl, sym (append-nil d.outbox_queue), refl)
  pipeline_each-sent now random ((k, m) ∷ ps) d g young (next d' g' r t) =
      let (ms, good, queued, same) =
        pipeline_each-sent now random ps d' g' (still_young r.sends) t in
      (
        r.msg ∷ ms,
        ground (arith, r.sends, good),
        ground (arith, r.sends, r.queued, queued, append_assoc d.outbox_queue (r.msg ∷ []) ms),
        ground (arith, r.carries, young, same),
      )
    where
      still_young :
          pipeline x o c d (Message.get_action m) (Message.get_action_payload m) ≡ (d', ok tt)
          → d'.pre_pipelining_agent ≡ false
      still_young e =
          ap (λ q. q.0.pre_pipelining_agent) (sym e)
          ∙ pipeline-frame x o c d (Message.get_action m) (Message.get_action_payload m)
          ∙ young

  -- Recovery, at the SynAck: the daemon empties its pipeline and sends the lost messages again, in their
  -- order and with their actions and payloads, and no others; and the agent, which is in step with the
  -- emptied pipeline, accepts every one. The agent is of version 2.0 at least, the certificate does not
  -- expire on the way, no action is empty, and no two messages in flight have one hash.
  pub resend_recovers :
      (enc : Encodings x) (now : ℕ) (random : String) (d : Daemon V M C) (g : Agent V) (version : V)
      (nonce : String) (check : V → Bool) (lost : Pairs) (s : InStep x o c (emptied d) g)
      → Lost d nonce lost
      → x.new_constraint "> 2.0" ≡ some check
      → d.pre_pipelining_agent ≡ false
      → now ≤ s.cert.expiration
      → AllNamed (calls lost)
      → NoCollision x o c (emptied d) (calls lost)
      → (ms : List Message) × ((resend x o c d version nonce).1 ≡ ok tt)
        × ((resend x o c d version nonce).0.outbox_queue ≡ d.outbox_queue ++ ms)
        × (carried ms ≡ calls lost)
        × Delivered x o c now random (emptied d) g (calls lost)
  resend_recovers enc now random d g version nonce check lost s l k young live named fresh =
      let delivered =
        stream-Delivered x o c enc now random (emptied d) g (calls lost) s live named fresh in
      let (ms, good, queued, same) =
        pipeline_each-sent now random lost (emptied d) g young delivered in
      let e = resend-Lost d version nonce check l k in
      (ms, ap (λ r. r.1) e ∙ good, ap (λ r. r.0.outbox_queue) e ∙ queued, same, delivered)
