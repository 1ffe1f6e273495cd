-- ===== src/Mrtap/Tests.antt =====
-- The theorems on the protocol at concrete messages.
use bzero.Mrtap.BzCert
use bzero.Mrtap.BzCert.Sound.{Service, Person, verify_sound}
use bzero.Shared.{ℕ, ◌⊎◌}
use bzero.Shared.{
  ◌≤◌, ◌≡◌, ◌↔◌, if◌then◌else◌, refl, true, some, List, [], ◌∷◌, arith, length, ◌+◌, ltb, ok, err,
  panic,
}
use bzero.Mrtap.Types.{Message, data_ack, data_ack_payload}
use bzero.Mrtap.Keypair
use bzero.Mrtap.Message
use bzero.Mrtap.BzCert
use bzero.Mrtap.PipelineMap.{find}
use bzero.Mrtap.Daemon
use bzero.Mrtap.Daemon.{Daemon, inbox, pipeline}
use bzero.Mrtap.Agent
use bzero.Mrtap.Agent.{Agent}
use bzero.Mrtap.Daemon.Trust.{Trusted, validate-Trusted, data_ack_panics}
use bzero.Mrtap.Daemon.Pipeline.{inbox-length}
use bzero.Mrtap.Daemon.Budget.{recover_each, recover_bounded}
use bzero.Mrtap.Agent.{message_error}
use bzero.Mrtap.Message.{invalid_signature}
use bzero.Mrtap.Agent.Accept.{Admissible, is_ok, validate-data_iff}
use bzero.Mrtap.Agent.Greeting.{Welcome, greeted, validate-syn_iff, refused_syn_takes_key}
use bzero.Mrtap.Daemon.Recovery.{ErrorMessage, resend, recover, validate}
use bzero.Mrtap.Session.Resume.{calls, carried, emptied, resend_recovers}
use bzero.Mrtap.Session.Stream.{Delivered, stream-Delivered}
use bzero.Mrtap.Session.Greeting.{Shaken}
use bzero.Mrtap.Session.Handshake.{handshake_completes}
use bzero.Mrtap.Sample.{world, pairs_map, wallet, encode}
use bzero.Mrtap.Sample.Ends.{
  google_verifier, cert, client_public, purse, agent, daemon, verified_cert, encodings,
  cert_verifies, can_shake, ready_daemon, ready_agent, in_step, keystrokes, no_collision, input,
  stalled_daemon, lost, stalled-Lost, no_collision_lost, first_input, signed_input, greeting,
  signed_syn, forged_syn, answer, forged_answer, refusals,
}

handshake_completes_example :
    Shaken world pairs_map wallet daemon agent 10 "random" "shell/open" "nonce" [] true
handshake_completes_example =
    handshake_completes world pairs_map wallet encodings daemon agent purse 10 "random" can_shake
      "shell/open" "nonce" [] true

stream-Delivered_example :
    Delivered world pairs_map wallet 10 "random" ready_daemon ready_agent keystrokes
unfolding in_step
stream-Delivered_example =
    stream-Delivered world pairs_map wallet encodings 10 "random" ready_daemon ready_agent
      keystrokes in_step (omega arith) (λ e. cc, (λ e. cc, tt)) no_collision

resend_recovers_example :
    (ms : List Message) × ((resend world pairs_map wallet stalled_daemon 22
        (Message.hash world (input (1 ∷ [])))).1
      ≡ ok tt)
    × ((resend world pairs_map wallet stalled_daemon 22
          (Message.hash world (input (1 ∷ [])))).0.outbox_queue
        ≡ ms)
    × (carried ms ≡ calls lost)
    × Delivered world pairs_map wallet 10 "random"
        (emptied world pairs_map wallet stalled_daemon)
        ready_agent
        (calls lost)
unfolding Daemon.new Message.get_action Message.get_action_payload in_step input lost stalled_daemon
resend_recovers_example =
    resend_recovers world pairs_map wallet encodings 10 "random" stalled_daemon ready_agent 22
      (Message.hash world (input (1 ∷ []))) (λ v. ltb 20 v) lost in_step stalled-Lost refl refl
      (omega arith) ((λ e. cc), tt) (no_collision_lost, tt)

validate-data_iff_example :
    (((Agent.validate world ready_agent 10 signed_input).1 ≡ ok tt)
      ↔ Admissible world ready_agent 10 signed_input first_input)
    × ((Agent.validate world ready_agent 10 signed_input).0 ≡ (
        if is_ok (Agent.validate world ready_agent 10 signed_input).1
        then record ready_agent { last_data_message = some signed_input }
        else ready_agent))
unfolding signed_input Message.sign Message.payload_hash Message.hash_payload
validate-data_iff_example =
    validate-data_iff world ready_agent 10 signed_input first_input (refl, refl)

validate-syn_iff_example :
    (((Agent.validate world agent 10 signed_syn).1 ≡ ok tt)
      → Welcome world agent 10 signed_syn greeting)
    × ((w : Welcome world agent 10 signed_syn greeting)
        → Agent.validate world agent 10 signed_syn
          ≡ (greeted world agent w.cert w.key w.version, ok tt))
unfolding Message.sign
validate-syn_iff_example = validate-syn_iff world agent 10 signed_syn greeting (refl, refl)

refused_syn_takes_key_example : Agent.validate world agent 10 forged_syn ≡ (
  record agent { client_public_key = some client_public },
  err (message_error invalid_signature),
)
unfolding Keypair.public_key_from_string Message.verify_signature Keypair.verify
refused_syn_takes_key_example =
    refused_syn_takes_key world agent 10 forged_syn greeting verified_cert client_public
      (refl, refl) cert_verifies client_public_reads forged_syn-invalid
  where
    client_public_reads :
        Keypair.public_key_from_string world (encode client_public) ≡ some client_public
    client_public_reads = refl

    forged_syn-invalid :
        Message.verify_signature world forged_syn (some client_public) ≡ err invalid_signature
    forged_syn-invalid = refl

validate-Trusted_example : Trusted world pairs_map wallet stalled_daemon answer
unfolding validate bzero.Mrtap.Daemon.Recovery.learn_key answer
    bzero.Mrtap.Daemon.Recovery.check_signature Message.verify_signature Keypair.verify Keypair.sign
    stalled_daemon Message.get_hpointer bzero.Mrtap.Daemon.Recovery.accept_pointer find
    bzero.Mrtap.Daemon.Recovery.settle bzero.Mrtap.Daemon.Recovery.accept_ack input ready_daemon
    daemon
validate-Trusted_example =
    validate-Trusted world pairs_map wallet stalled_daemon answer answer-accepted
  where
    answer-accepted : (validate world pairs_map wallet stalled_daemon answer).1 ≡ ok tt
    answer-accepted = refl

data_ack_panics_example :
    validate world pairs_map wallet daemon (record {
      type = data_ack;
      payload = data_ack_payload forged_answer;
      signature = encode (8 ∷ []);
    })
    ≡ (daemon, panic)
unfolding daemon
data_ack_panics_example =
    data_ack_panics world pairs_map wallet daemon
      (record {
        type = data_ack;
        payload = data_ack_payload forged_answer;
        signature = encode (8 ∷ []);
      })
      forged_answer (8 ∷ []) refl refl refl refl

inbox-length_example :
    (ready_daemon.is_handshake_complete ≡ true)
    × (length (
          pairs_map.pairs
            (pipeline world pairs_map wallet ready_daemon "shell/input" (1 ∷ [])).0.pipeline_map)
        ≤ 8)
unfolding inbox Daemon.is_open ready_daemon daemon
inbox-length_example =
    inbox-length world pairs_map wallet ready_daemon _ "shell/input" (1 ∷ []) _ open_inbox
  where
    open_inbox :
        inbox world pairs_map wallet ready_daemon "shell/input" (1 ∷ [])
        ≡ some (pipeline world pairs_map wallet ready_daemon "shell/input" (1 ∷ []))
    open_inbox = refl

recover_bounded_example :
    length (recover_each world pairs_map wallet daemon refusals).outbox_queue + 0 ≤ 3
unfolding daemon
recover_bounded_example = recover_bounded world pairs_map wallet refusals daemon (omega arith)

verify_sound_example :
    (exp : ℕ) × (verified_cert
      ≡ record cert { hash = BzCert.cert_hash world cert; expiration = exp })
    × (Service world google_verifier 10 cert exp ⊎ Person world google_verifier 10 cert exp)
unfolding BzCert.new_verifier BzCert.provider_type
verify_sound_example =
    verify_sound world "google" "org" [] 10 cert verified_cert google_verifier google_verifier_made
      cert_verifies
  where
    google_verifier_made : BzCert.new_verifier world "google" "org" [] ≡ ok google_verifier
    google_verifier_made = refl
