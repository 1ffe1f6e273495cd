-- ===== src/Channel/Agent.antt =====
-- bctl/agent/datachannel/datachannel.go: the agent's data channel, from a message received to the
-- messages queued for the daemon. That a send waits while ten messages are unread, and that the plugin
-- streams its own output, is not modelled.
pub mod Answers
pub mod Guard
use bzero.Shared.{
  ℕ, ◌-◌, Bool, true, false, not, Option, none, some, String, List, [], ◌∷◌, ◌++◌, str_eq, ltb,
  ◌==◌, if◌then◌else◌, length, take, drop, Outcome, ok, err, panic,
}
use bzero.Mrtap.Types.{
  Bytes, PayloadType, syn, data_, SynPayload, DataPayload, Payload, syn_payload, data_payload,
  Message,
}
use bzero.Mrtap.Externals.{Externals}
use bzero.Mrtap.Message
use bzero.Mrtap.Message.Json.{JsonError, marshal, unmarshal}
use bzero.Mrtap.BzCert.Jku.{split}
use bzero.Mrtap.Daemon.Recovery.{ErrorMessage}
use bzero.Mrtap.Agent
use bzero.Mrtap.Agent.{AgentError}
use bzero.Channel.Types.{
  MessageType, mrtap, mrtap_legacy, error, AgentMessage, current_version, error_version,
  mrtap_legacy_validation_error, component_startup_error, component_processing_error,
}
use bzero.Channel.Wire.{Wire}

pub data ChannelError : Type 0 where
  malformed_message : JsonError → ChannelError
  not_a_syn unhandled_message_type malformed_action no_plugin invalid_payload bad_payload :
      ChannelError
  unrecognized_plugin bad_constraint bad_version : ChannelError
  invalid_message not_built : AgentError → ChannelError
  not_started plugin_failed : String → ChannelError

-- The five plugins. `start` is `New` of one, whose result goes into the field whatever the error;
-- `receive` is its `Receive`.
pub record Plugins (P : Type 0) : Type 0 where
  pub start : String → String → Bytes → P × Option String
  pub receive : P → String → Bytes → P × Outcome String Bytes

pub record DataChannel (V P : Type 0) : Type 0 where
  pub id : String
  pub mrtap : Agent.Agent V
  pub plugin : Option P
  pub payload_clean : Bool
  pub output_chan : List AgentMessage
  pub is_alive : Bool
  pub input_chan : List AgentMessage

-- `PluginName`
unfoldable pub is_plugin : String → Bool
is_plugin s =
    if str_eq s "kube"
    then true
    else if str_eq s "shell"
    then true
    else if str_eq s "ssh"
    then true
    else if str_eq s "web"
    then true
    else str_eq s "db"

module _ {V P : Type 0} (x : Externals V) (w : Wire ChannelError) (plugins : Plugins P) where
  unfoldable pub send : DataChannel V P → MessageType → Bytes → DataChannel V P
  send d type payload = record d {
    output_chan =
        d.output_chan
        ++ (record {
          channel_id = d.id;
          message_type = type;
          schema_version = current_version;
          message_payload = payload;
        }
            ∷ []);
  }

  -- `now` and `random` are the time and the random text that `BuildAck` reads.
  unfoldable pub send_mrtap :
      DataChannel V P
      → ℕ
      → String
      → Message
      → Bytes
      → DataChannel V P × Outcome ChannelError (Unit {0})
  unfolding send
  send_mrtap d now random msg payload =
      let (mrtap', ack) = Agent.build_ack x d.mrtap now random msg payload in
      let d' = record d { mrtap = mrtap' } in
      elim ack [
        | ok a ↦ (send d' mrtap_legacy (marshal w.json a), ok tt)
        | err e ↦ (d', err (not_built e))
        | panic ↦ (d', panic)
      ]

  -- A call whose error is not looked at.
  unfoldable pub dropped :
      DataChannel V P × Outcome ChannelError (Unit {0})
      → DataChannel V P × Outcome ChannelError (Unit {0})
  dropped (d, panic) = (d, panic)
  dropped (d, _) = (d, ok tt)

  unfoldable pub send_error : DataChannel V P → String → ChannelError → String → DataChannel V P
  unfolding send
  send_error d type e hash = send d error (
      w.write_error (record {
        schema_version = error_version;
        type = type;
        message = w.print_error e;
        hpointer = hash;
      }))

  -- An error that is sent and returned.
  unfoldable pub fail_with :
      DataChannel V P
      → String
      → ChannelError
      → String
      → DataChannel V P × Outcome ChannelError (Unit {0})
  unfolding send_error
  fail_with d type e hash = (send_error d type e hash, err e)

  -- `cleanPayload`: the quotes off, which panics on a payload of one byte, then base64.
  unfoldable pub clean_payload : Bytes → Outcome ChannelError Bytes
  clean_payload payload =
      let inner =
        if ltb 0 (length payload) then drop 1 (take (length payload - 1) payload) else payload in
      if length payload == 1
      then panic
      else elim (x.base64_decode (w.text_of inner)) [ none ↦ err bad_payload | some b ↦ ok b ]

  -- The plugin's result is stored before its error is read, so a plugin that did not start is not nil.
  unfoldable pub start_plugin :
      DataChannel V P → String → SynPayload → DataChannel V P × Outcome ChannelError (Unit {0})
  start_plugin d name p =
      let (plugin, failure) = plugins.start name p.action p.action_payload in
      let started = record d { plugin = some plugin } in
      if not (is_plugin name) then (d, err unrecognized_plugin) else elim failure [
        | some e ↦ (started, err (not_started e))
        | none ↦ elim (x.new_constraint ">= 2.0") [
          | none ↦ (started, err bad_constraint)
          | some check ↦ elim (x.new_version p.schema_version) [
            | none ↦ (started, err bad_version)
            | some v ↦ (record started { payload_clean = check v }, ok tt)
          ]
        ]
      ]

  -- The plugin's name is what stands before the first slash of the action, which must have one.
  unfoldable pub open_plugin :
      DataChannel V P
      → List String
      → SynPayload
      → String
      → DataChannel V P × Outcome ChannelError (Unit {0})
  unfolding fail_with
  open_plugin d (name ∷ rest ∷ more) p hash =
      let (d', started) = start_plugin d name p in
      elim started [
        | ok _ ↦ (d', ok tt)
        | err e ↦ fail_with d' component_startup_error e hash
        | panic ↦ (d', panic)
      ]
  open_plugin d _ p hash = fail_with d component_processing_error malformed_action hash

  unfoldable pub handle_syn :
      DataChannel V P
      → ℕ
      → String
      → Message
      → SynPayload
      → DataChannel V P × Outcome ChannelError (Unit {0})
  handle_syn d now random msg p = elim d.plugin [
    | some _ ↦ dropped (send_mrtap d now random msg [])
    | none ↦
        let (d', opened) = open_plugin d (split b'/' p.action) p (Message.hash x msg) in
        elim opened [
          | ok _ ↦ dropped (send_mrtap d' now random msg [])
          | err e ↦ (d', err e)
          | panic ↦ (d', panic)
        ]
  ]

  unfoldable pub payload_for_plugin : DataChannel V P → Bytes → Outcome ChannelError Bytes
  payload_for_plugin d payload = if d.payload_clean then ok payload else clean_payload payload

  -- An error of the plugin is sent, and the method returns none.
  unfoldable pub serve :
      DataChannel V P
      → P
      → ℕ
      → String
      → Message
      → DataPayload
      → Bytes
      → DataChannel V P × Outcome ChannelError (Unit {0})
  serve d plugin now random msg p payload =
      let (plugin', returned) = plugins.receive plugin p.action payload in
      let d' = record d { plugin = some plugin' } in
      elim returned [
        | ok bytes ↦ dropped (send_mrtap d' now random msg bytes)
        | err e ↦
            (send_error d' component_processing_error (plugin_failed e) (Message.hash x msg), ok tt)
        | panic ↦ (d', panic)
      ]

  -- A payload that cannot be cleaned is an error that is not sent.
  unfoldable pub handle_data :
      DataChannel V P
      → ℕ
      → String
      → Message
      → DataPayload
      → DataChannel V P × Outcome ChannelError (Unit {0})
  handle_data d now random msg p = elim d.plugin [
    | none ↦ fail_with d component_processing_error no_plugin (Message.hash x msg)
    | some plugin ↦ elim (payload_for_plugin d p.action_payload) [
      | ok payload ↦ serve d plugin now random msg p payload
      | err e ↦ (d, err e)
      | panic ↦ (d, panic)
    ]
  ]

  -- The switch on the type, with the assertion on the payload.
  unfoldable pub handle_by :
      PayloadType
      → Payload
      → DataChannel V P
      → ℕ
      → String
      → Message
      → DataChannel V P × Outcome ChannelError (Unit {0})
  handle_by syn (syn_payload p) d now random msg = handle_syn d now random msg p
  handle_by syn _ d now random msg = (d, panic)
  handle_by data_ (data_payload p) d now random msg = handle_data d now random msg p
  handle_by data_ _ d now random msg = (d, panic)
  handle_by _ _ d now random msg =
      fail_with d component_processing_error invalid_payload (Message.hash x msg)

  unfoldable pub handle_mrtap_message :
      DataChannel V P → ℕ → String → Message → DataChannel V P × Outcome ChannelError (Unit {0})
  handle_mrtap_message d now random msg =
      let (mrtap', validated) = Agent.validate x d.mrtap now msg in
      let d' = record d { mrtap = mrtap' } in
      elim validated [
        | ok _ ↦ handle_by msg.type msg.payload d' now random msg
        | err e ↦
            fail_with d' mrtap_legacy_validation_error (invalid_message e) (Message.hash x msg)
        | panic ↦ (d', panic)
      ]

  -- The error that `handleMrtapMessage` returns is dropped.
  unfoldable pub process_input :
      DataChannel V P
      → ℕ
      → String
      → AgentMessage
      → DataChannel V P × Outcome ChannelError (Unit {0})
  process_input d now random m = elim m.message_type [
    | mrtap ↦ elim (unmarshal w.json m.message_payload) [
      | err e ↦ (send_error d component_processing_error (malformed_message e) "", ok tt)
      | panic ↦ (d, panic)
      | ok msg ↦ dropped (handle_mrtap_message d now random msg)
    ]
    | _ ↦ (send_error d component_processing_error unhandled_message_type "", ok tt)
  ]

  unfoldable pub receive : DataChannel V P → AgentMessage → DataChannel V P
  receive d m = if d.is_alive then record d { input_chan = d.input_chan ++ (m ∷ []) } else d

  -- The part of `New` that runs before its goroutines. An error means that no channel is returned; what
  -- it queued is flushed.
  unfoldable pub start_with :
      DataChannel V P → ℕ → String → Bytes → DataChannel V P × Outcome ChannelError (Unit {0})
  start_with d now random bytes = elim (unmarshal w.json bytes) [
    | err e ↦ (d, err (malformed_message e))
    | panic ↦ (d, panic)
    | ok msg ↦ elim msg.type [
      | syn ↦ handle_mrtap_message d now random msg
      | _ ↦ (d, err not_a_syn)
    ]
  ]

  unfoldable pub new :
      String
      → Agent.Agent V
      → ℕ
      → String
      → Bytes
      → DataChannel V P × Outcome ChannelError (Unit {0})
  new id mrtap' now random bytes =
      start_with
        (record {
          id = id;
          mrtap = mrtap';
          plugin = none;
          payload_clean = false;
          output_chan = [];
          is_alive = true;
          input_chan = [];
        })
        now random bytes
