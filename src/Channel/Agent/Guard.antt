-- ===== src/Channel/Agent/Guard.antt =====
-- What reaches the plugin.
use bzero.Shared.{
  ℕ, ◌≡◌, ◌⊎◌, inl, inr, refl, false, some, String, arith, length, Outcome, ok, err, panic,
}
use bzero.Mrtap.Types.{Bytes, DataPayload, Message}
use bzero.Mrtap.Externals.{Externals}
use bzero.Mrtap.Message.Json.{JsonError, unmarshal}
use bzero.Mrtap.Agent
use bzero.Mrtap.Agent.{AgentError}
use bzero.Mrtap.Agent.Accept.{Admissible, Admissible-validate, IsData}
use bzero.Channel.Types.{AgentMessage}
use bzero.Channel.Wire.{Wire}
use bzero.Channel.Agent.{
  ChannelError, Plugins, DataChannel, send, send_mrtap, send_error, dropped, fail_with,
  clean_payload, payload_for_plugin, handle_data, handle_by, handle_mrtap_message, process_input,
}

module _ {V P : Type 0} (x : Externals V) (w : Wire ChannelError) (plugins : Plugins P) where
  -- Sending leaves the plugin alone.
  send_mrtap-plugin :
      (d : DataChannel V P) (now : ℕ) (random : String) (msg : Message) (bytes : Bytes)
      → (dropped x w plugins (send_mrtap x w plugins d now random msg bytes)).0.plugin ≡ d.plugin
  unfolding send_mrtap dropped send
  send_mrtap-plugin d now random msg bytes = ground arith

  -- The message decodes, and the protocol accepts it.
  abbrev pub IsAccepted : DataChannel V P → ℕ → AgentMessage → Type 0
  IsAccepted d now m =
      (msg : Message) × (unmarshal w.json m.message_payload ≡ ok msg)
      × ((Agent.validate x d.mrtap now msg).1 ≡ ok tt)

  refused-plugin :
      (d : DataChannel V P) (now : ℕ) (random : String) (msg : Message)
      (r : Outcome AgentError (Unit {0}))
      → (Agent.validate x d.mrtap now msg).1 ≡ r
      → ((dropped x w plugins (handle_mrtap_message x w plugins d now random msg)).0.plugin
          ≡ d.plugin)
        ⊎ (r ≡ ok tt)
  unfolding handle_mrtap_message fail_with send_error send dropped
  refused-plugin d now random msg (ok tt) e = inr refl
  refused-plugin d now random msg (err f) e = inl (ground (arith, e))
  refused-plugin d now random msg panic e = inl (ground (arith, e))

  decoded-plugin :
      (d : DataChannel V P) (now : ℕ) (random : String) (m : AgentMessage)
      (r : Outcome JsonError Message)
      → unmarshal w.json m.message_payload ≡ r
      → ((process_input x w plugins d now random m).0.plugin ≡ d.plugin) ⊎ IsAccepted d now m
  unfolding process_input send_error send
  decoded-plugin d now random m (ok msg) e = elim (refused-plugin d now random msg _ refl) [
    | inl same ↦ inl (ground (arith, e, same))
    | inr good ↦ inr (msg, e, good)
  ]
  decoded-plugin d now random m (err f) e = inl (ground (arith, e))
  decoded-plugin d now random m panic e = inl (ground (arith, e))

  -- The plugin of the agent's data channel is started or changed by no message but one that decodes and
  -- that the protocol accepts.
  pub process_input-guarded :
      (d : DataChannel V P) (now : ℕ) (random : String) (m : AgentMessage)
      → ((process_input x w plugins d now random m).0.plugin ≡ d.plugin) ⊎ IsAccepted d now m
  process_input-guarded d now random m = decoded-plugin d now random m _ refl

  -- From a daemon before version 2.0, a Data message of one byte that is admissible makes the channel
  -- panic.
  pub one_byte_panics :
      (d : DataChannel V P) (now : ℕ) (random : String) (msg : Message) (p : DataPayload)
      (plugin : P)
      → IsData x msg p
      → Admissible x d.mrtap now msg p
      → d.plugin ≡ some plugin
      → d.payload_clean ≡ false
      → length p.action_payload ≡ 1
      → (handle_mrtap_message x w plugins d now random msg).1 ≡ panic
  unfolding handle_mrtap_message handle_by handle_data payload_for_plugin clean_payload
  one_byte_panics d now random msg p plugin t a held dirty one =
      ground (arith, Admissible-validate x d.mrtap now msg p t a, t, held, dirty, one)
