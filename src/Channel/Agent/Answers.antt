-- ===== src/Channel/Agent/Answers.antt =====
-- How many messages the agent's data channel queues for one that it receives.
use bzero.Shared.{
  ℕ, ◌+◌, ◌≤◌, ◌≡◌, String, List, [], ◌∷◌, arith, length, length-append, take, take_all,
  take-append_at, refl, ok,
}
use bzero.Mrtap.Types.{Bytes, PayloadType, SynPayload, DataPayload, Payload, Message}
use bzero.Mrtap.Externals.{Externals}
use bzero.Mrtap.Message
use bzero.Mrtap.BzCert.Jku.{split}
use bzero.Channel.Types.{MessageType, AgentMessage, current_version}
use bzero.Channel.Wire.{Wire}
use bzero.Channel.Agent.{
  ChannelError, Plugins, DataChannel, send, send_mrtap, send_error, dropped, fail_with,
  start_plugin, open_plugin, handle_syn, serve, handle_data, handle_by, handle_mrtap_message,
  process_input,
}

module _ {V P : Type 0} (x : Externals V) (w : Wire ChannelError) (plugins : Plugins P) where
  -- What was queued is first in the queue, as it was, and at most one message more is behind it.
  abbrev pub Answers : DataChannel V P → DataChannel V P → Type 0
  Answers d d' =
      (take (length d.output_chan) d'.output_chan ≡ d.output_chan)
      × (length d.output_chan ≤ length d'.output_chan)
      × (length d'.output_chan ≤ length d.output_chan + 1)

  none_lost : (xs : List AgentMessage) → take (length xs) xs ≡ xs
  none_lost xs = take_all (length xs) xs (omega arith)

  send-Answers :
      (d : DataChannel V P) (type : MessageType) (bytes : Bytes)
      → Answers d (send x w plugins d type bytes)
  unfolding send
  send-Answers d type bytes =
      let m : AgentMessage = record {
        channel_id = d.id;
        message_type = type;
        schema_version = current_version;
        message_payload = bytes;
      } in
      (
        take-append_at (length d.output_chan) d.output_chan (m ∷ []) refl,
        omega (arith, length-append d.output_chan (m ∷ [])),
        omega (arith, length-append d.output_chan (m ∷ [])),
      )

  send_mrtap-Answers :
      (d : DataChannel V P) (now : ℕ) (random : String) (msg : Message) (bytes : Bytes)
      → Answers d (dropped x w plugins (send_mrtap x w plugins d now random msg bytes)).0
  unfolding send_mrtap dropped
  send_mrtap-Answers d now random msg bytes = grind (arith, none_lost, send-Answers)

  send_error-Answers :
      (d : DataChannel V P) (type : String) (e : ChannelError) (hash : String)
      → Answers d (send_error x w plugins d type e hash)
  unfolding send_error
  send_error-Answers d type e hash = grind (arith, none_lost, send-Answers)

  fail_with-Answers :
      (d : DataChannel V P) (type : String) (e : ChannelError) (hash : String)
      → Answers d (fail_with x w plugins d type e hash).0
  unfolding fail_with
  fail_with-Answers d type e hash = send_error-Answers d type e hash

  -- Opening a plugin queues an error where it fails, and nothing where it does not.
  open_plugin-Answers :
      (d : DataChannel V P) (pieces : List String) (p : SynPayload) (hash : String)
      → let (d', opened) = open_plugin x w plugins d pieces p hash in
        Answers d d' × (opened ≡ ok tt → d'.output_chan ≡ d.output_chan)
  unfolding open_plugin start_plugin
  open_plugin-Answers d (name ∷ rest ∷ more) p hash = grind (arith, none_lost, fail_with-Answers)
  open_plugin-Answers d (name ∷ []) p hash = grind (arith, none_lost, fail_with-Answers)
  open_plugin-Answers d [] p hash = grind (arith, none_lost, fail_with-Answers)

  handle_syn-Answers :
      (d : DataChannel V P) (now : ℕ) (random : String) (msg : Message) (p : SynPayload)
      → Answers d (handle_syn x w plugins d now random msg p).0
  unfolding handle_syn
  handle_syn-Answers d now random msg p = grind (
    arith,
    none_lost,
    send_mrtap-Answers,
    open_plugin-Answers d (split b'/' p.action) p (Message.hash x msg),
  )

  handle_data-Answers :
      (d : DataChannel V P) (now : ℕ) (random : String) (msg : Message) (p : DataPayload)
      → Answers d (handle_data x w plugins d now random msg p).0
  unfolding handle_data serve
  handle_data-Answers d now random msg p =
      grind (arith, none_lost, send_mrtap-Answers, fail_with-Answers, send_error-Answers)

  handle_by-Answers :
      (type : PayloadType) (p : Payload) (d : DataChannel V P) (now : ℕ) (random : String)
      (msg : Message)
      → Answers d (handle_by x w plugins type p d now random msg).0
  unfolding handle_by
  handle_by-Answers type p d now random msg =
      grind (arith, none_lost, fail_with-Answers, handle_syn-Answers, handle_data-Answers)

  handle_mrtap_message-Answers :
      (d : DataChannel V P) (now : ℕ) (random : String) (msg : Message)
      → Answers d (handle_mrtap_message x w plugins d now random msg).0
  unfolding handle_mrtap_message
  handle_mrtap_message-Answers d now random msg =
      grind (arith, none_lost, fail_with-Answers, handle_by-Answers)

  -- Whatever a message from the connection holds, what the agent's data channel had queued stays as it
  -- was, in its order, and at most one message is queued for it, at the end.
  pub process_input-Answers :
      (d : DataChannel V P) (now : ℕ) (random : String) (m : AgentMessage)
      → Answers d (process_input x w plugins d now random m).0
  unfolding process_input dropped
  process_input-Answers d now random m =
      grind (arith, none_lost, send_error-Answers, handle_mrtap_message-Answers)
