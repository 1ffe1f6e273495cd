-- ===== src/Channel/Daemon/Outbox.antt =====
-- What the daemon's data channel sends, what its plugin receives, and the last messages of a channel.
use bzero.Shared.{
  ◌≡◌, ◌≢◌, ◌⊎◌, inl, inr, refl, sym, ◌∙◌, Bool, true, false, not, ◌&&◌, ◌||◌, Option, none, some,
  String, List, [], ◌∷◌, ◌++◌, map, append_assoc, append-nil, ◌==◌, arith, if◌then◌else◌,
  Bool-cases, Outcome, ok, err, panic,
}
use bzero.Mrtap.Types.{Message}
use bzero.Mrtap.Externals.{Externals}
use bzero.Mrtap.Message.Json.{JsonError, marshal, unmarshal}
use bzero.Mrtap.PipelineMap.{OrderedMap}
use bzero.Mrtap.Daemon.{DaemonError, Credential, is_pipeline_empty}
use bzero.Mrtap.Daemon.Recovery
use bzero.Mrtap.Daemon.Trust.{Trusted, validate-Trusted}
use bzero.Channel.Types.{MessageType, mrtap_legacy, stream, AgentMessage, current_version}
use bzero.Channel.Wire.{Wire}
use bzero.Channel.Daemon.{
  ChannelError, Plugins, Opening, DataChannel, is_syn, conn_send, send, handle_mrtap, handle_error,
  kill, process_input_message, send_mrtap,
}

-- What `waitForRemainingMessages` waits for.
pub data Event : Type 0 where
  arrived : AgentMessage → String → Event
  check_outbox absolute_timeout : Event

-- `agentMessage.MessageType == am.Stream`
unfoldable pub is_stream : MessageType → Bool
is_stream stream = true
is_stream _ = false

-- The events without the stream messages.
abbrev pub without_streams : List Event → List Event
without_streams [] = []
without_streams (arrived m nonce ∷ es) =
    let rest = without_streams es in
    if is_stream m.message_type then rest else arrived m nonce ∷ rest
without_streams (check_outbox ∷ es) = check_outbox ∷ without_streams es
without_streams (absolute_timeout ∷ es) = absolute_timeout ∷ without_streams es

abbrev pub syns : List Message → List Message
syns [] = []
syns (m ∷ ms) = let rest = syns ms in if is_syn m.type then m ∷ rest else rest

module _ {V M C P : Type 0} (x : Externals V) (o : OrderedMap M) (c : Credential C)
    (w : Wire ChannelError) (plugins : Plugins P) (opening : Opening) where
  -- `waitForRemainingMessages`: whether it has returned.
  unfoldable pub wait_for_remaining_messages :
      List Event
      → DataChannel V M C P
      → DataChannel V M C P × Option (Outcome ChannelError (Unit {0}))
  wait_for_remaining_messages [] d = (d, none)
  wait_for_remaining_messages (arrived m nonce ∷ es) d =
      let (d', processed) = process_input_message x o c w plugins opening d m nonce in
      let skipped = wait_for_remaining_messages es d in
      let rest = wait_for_remaining_messages es d' in
      if is_stream m.message_type
      then skipped
      else elim processed [ panic ↦ (d', some panic) | _ ↦ rest ]
  wait_for_remaining_messages (check_outbox ∷ es) d =
      let rest = wait_for_remaining_messages es d in
      if plugins.outbox_length d.plugin == 0 && is_pipeline_empty x o c d.mrtap
      then (d, some (ok tt))
      else rest
  wait_for_remaining_messages (absolute_timeout ∷ es) d = (d, some (ok tt))

  -- While the channel waits for its last messages, stream messages make no difference.
  pub wait-without_streams :
      (es : List Event) (d : DataChannel V M C P)
      → wait_for_remaining_messages es d ≡ wait_for_remaining_messages (without_streams es) d
  unfolding wait_for_remaining_messages
  wait-without_streams [] d = refl
  wait-without_streams (arrived m nonce ∷ es) d = elim (Bool-cases (is_stream m.message_type)) [
    | inl f ↦ ground (arith, f, wait-without_streams es d)
    | inr f ↦ ground (
      arith,
      f,
      wait-without_streams es (process_input_message x o c w plugins opening d m nonce).0,
    )
  ]
  wait-without_streams (check_outbox ∷ es) d = ground (arith, wait-without_streams es d)
  wait-without_streams (absolute_timeout ∷ es) d = refl

  -- The goroutine over a run of messages of the outbox.
  unfoldable pub send_each : DataChannel V M C P → List Message → DataChannel V M C P
  send_each d [] = d
  send_each d (m ∷ ms) = send_each (send_mrtap x o c w plugins opening d m) ms

  -- A message as it goes over the connection.
  abbrev pub wrapped : DataChannel V M C P → Message → AgentMessage
  wrapped d msg = record {
    channel_id = d.id;
    message_type = mrtap_legacy;
    schema_version = current_version;
    message_payload = marshal w.json msg;
  }

  -- While the daemon recovers, the messages that leave its outbox for the agent are the Syns, in their
  -- order; otherwise they are all that were put there, in their order.
  pub send_each-sent :
      (ms : List Message) (d : DataChannel V M C P)
      → (send_each d ms).sent
        ≡ d.sent ++ map (wrapped d) (if d.mrtap.recovering then syns ms else ms)
  unfolding send_each send_mrtap send conn_send
  send_each-sent [] d = elim (Bool-cases d.mrtap.recovering) [
    | inl f ↦ rw f (sym (append-nil d.sent))
    | inr f ↦ rw f (sym (append-nil d.sent))
  ]
  send_each-sent (m ∷ ms) d = elim (Bool-cases (is_syn m.type || not d.mrtap.recovering)) [
    | inl f ↦ ground (
      arith,
      f,
      send_each-sent ms (record d { sent = d.sent ++ (wrapped d m ∷ []) }),
      append_assoc d.sent (wrapped d m ∷ [])
          (map (wrapped d) (if d.mrtap.recovering then syns ms else ms)),
    )
    | inr f ↦ ground (arith, f, send_each-sent ms d)
  ]

  -- The message decodes and is one that the protocol takes.
  abbrev pub IsTrusted : DataChannel V M C P → AgentMessage → Type 0
  IsTrusted d m =
      (msg : Message) × (unmarshal w.json m.message_payload ≡ ok msg) × Trusted x o c d.mrtap msg

  validated-plugin :
      (d : DataChannel V M C P) (m : AgentMessage) (msg : Message)
      (r : Outcome DaemonError (Unit {0}))
      → unmarshal w.json m.message_payload ≡ ok msg
      → (Recovery.validate x o c d.mrtap msg).1 ≡ r
      → ((handle_mrtap x o c w plugins opening d m).0.plugin ≡ d.plugin) ⊎ (r ≡ ok tt)
  unfolding handle_mrtap
  validated-plugin d m msg (ok tt) e v = inr refl
  validated-plugin d m msg (err f) e v = inl (ground (arith, e, v))
  validated-plugin d m msg panic e v = inl (ground (arith, e, v))

  decoded-plugin :
      (d : DataChannel V M C P) (m : AgentMessage) (r : Outcome JsonError Message)
      → unmarshal w.json m.message_payload ≡ r
      → ((handle_mrtap x o c w plugins opening d m).0.plugin ≡ d.plugin) ⊎ IsTrusted d m
  unfolding handle_mrtap
  decoded-plugin d m (ok msg) e = elim (validated-plugin d m msg _ e refl) [
    | inl same ↦ inl same
    | inr good ↦ inr (msg, e, validate-Trusted x o c d.mrtap msg good)
  ]
  decoded-plugin d m (err f) e = inl (ground (arith, e))
  decoded-plugin d m panic e = inl (ground (arith, e))

  processed-plugin :
      (d : DataChannel V M C P) (m : AgentMessage) (nonce : String)
      → m.message_type ≢ stream
      → ((process_input_message x o c w plugins opening d m nonce).0.plugin ≡ d.plugin)
        ⊎ ((process_input_message x o c w plugins opening d m nonce).0.plugin
            ≡ (handle_mrtap x o c w plugins opening d m).0.plugin)
  unfolding process_input_message handle_error kill
  processed-plugin d m nonce n = ground arith

  -- The daemon's plugin is changed by no message but a stream message and one that decodes, answers a
  -- message in flight and is signed by the agent's key, or by the key that the first SynAck names.
  pub process_input_message-guarded :
      (d : DataChannel V M C P) (m : AgentMessage) (nonce : String)
      → m.message_type ≢ stream
      → ((process_input_message x o c w plugins opening d m nonce).0.plugin ≡ d.plugin)
        ⊎ IsTrusted d m
  process_input_message-guarded d m nonce n = elim (processed-plugin d m nonce n) [
    | inl same ↦ inl same
    | inr handled ↦ elim (decoded-plugin d m _ refl) [
      | inl same ↦ inl (handled ∙ same)
      | inr t ↦ inr t
    ]
  ]
