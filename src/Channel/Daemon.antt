-- ===== src/Channel/Daemon.antt =====
-- bctl/daemon/datachannel/datachannel.go: the daemon's data channel, from the handshake to the last
-- messages. Its goroutines are functions of the channel's state, run in any order; a wait is an event.
pub mod Handshake
pub mod Outbox
use bzero.Shared.{
  ℕ, suc, ◌+◌, Bool, true, false, not, ◌&&◌, ◌||◌, Option, none, some, String, List, [], ◌∷◌, ◌++◌,
  str_eq, leb, ◌==◌, if◌then◌else◌, length, Outcome, ok, err, panic,
}
use bzero.Mrtap.Types.{Bytes, PayloadType, syn, Payload, syn_ack_payload, data_ack_payload, Message}
use bzero.Mrtap.Externals.{Externals}
use bzero.Mrtap.Message
use bzero.Mrtap.Message.Json.{JsonError, marshal, unmarshal}
use bzero.Mrtap.PipelineMap.{OrderedMap}
use bzero.Mrtap.Daemon
use bzero.Mrtap.Daemon.{DaemonError, Credential, is_pipeline_empty}
use bzero.Mrtap.Daemon.Recovery
use bzero.Mrtap.Daemon.Recovery.{ErrorMessage}
use bzero.Channel.Types.{
  MessageType, mrtap, mrtap_legacy, stream, error, open_data_channel, close_data_channel,
  AgentMessage, current_version, mrtap_validation_error,
}
use bzero.Channel.Wire.{Wire}

-- The errors that the daemon tells apart by their text.
pub data KnownError : Type 0 where
  user_not_found client_cert_cosign tls_disabled connection_refused : KnownError
  unknown_authority connection_failed missing_key : KnownError
  service_account certificate_expired incorrect_server_name : String → KnownError

pub data ChannelError : Type 0 where
  known : KnownError → ChannelError
  mrtap_error : DaemonError → ChannelError
  malformed_message : JsonError → ChannelError
  malformed_error malformed_stream unhandled_mrtap_type unhandled_message_type : ChannelError
  bad_first_message retried_too_often handshake_timed_out : ChannelError
  fatal : ErrorMessage → ChannelError
  plugin_error : String → ChannelError

-- A daemon's plugin. `outbox_length` is `len(plugin.Outbox())`.
pub record Plugins (P : Type 0) : Type 0 where
  pub receive_mrtap : P → String → Bytes → P × Option String
  pub receive_stream : P → Bytes → Option P
  pub outbox_length : P → ℕ

-- `json.Marshal` of `OpenDataChannelPayload`.
pub record Opening : Type 0 where
  pub write : Bytes → String → Bytes

-- `killed` is the reason of the tomb, once it is dying.
pub record DataChannel (V M C P : Type 0) : Type 0 where
  pub id : String
  pub mrtap : Daemon.Daemon V M C
  pub plugin : P
  pub sent : List AgentMessage
  pub input_chan : List AgentMessage
  pub killed : Option ChannelError

-- `mrtapMessage.Type == message.Syn`
unfoldable pub is_syn : PayloadType → Bool
is_syn syn = true
is_syn _ = false

abbrev pub max_retry : ℕ
max_retry = 3

module _ {V M C P : Type 0} (x : Externals V) (o : OrderedMap M) (c : Credential C)
    (w : Wire ChannelError) (plugins : Plugins P) (opening : Opening) where
  -- The order in which texts are looked for, which puts specific errors before general ones.
  unfoldable pub check_for_known_errors : String → Option KnownError
  check_for_known_errors s =
      if w.contains s "unixuser error: user does not exist"
      then some user_not_found
      else if w.contains s "service account config error"
      then some (service_account (w.last_piece s "service account config error"))
      else if w.contains s "bastion failed to cosign client certificate"
      then some client_cert_cosign
      else if w.contains s "database does not accept ssl connections"
      then some tls_disabled
      else if w.contains s "connection refused"
      then some connection_refused
      else if w.contains s "certificate signed by unknown authority"
      then some unknown_authority
      else if w.contains s "certificate has expired"
      then some (certificate_expired s)
      else if w.contains s "certificate is not valid for any names"
      then some (incorrect_server_name s)
      else if w.contains s "failed to establish connection"
      then some connection_failed
      else if w.contains s "missing SplitCert key"
      then some missing_key
      else none

  -- `conn.Send`
  unfoldable pub conn_send : DataChannel V M C P → AgentMessage → DataChannel V M C P
  conn_send d m = record d { sent = d.sent ++ (m ∷ []) }

  unfoldable pub send : DataChannel V M C P → MessageType → Bytes → DataChannel V M C P
  unfolding conn_send
  send d type payload = conn_send d (record {
    channel_id = d.id;
    message_type = type;
    schema_version = current_version;
    message_payload = payload;
  })

  -- `json` is the payload of the Syn as JSON, `nonce` the one drawn for it.
  unfoldable pub open_data_channel_with :
      DataChannel V M C P
      → String
      → Option Bytes
      → String
      → DataChannel V M C P × Outcome ChannelError (Unit {0})
  unfolding conn_send
  open_data_channel_with d action json nonce =
      let (mrtap', built) = Daemon.build_syn x o c d.mrtap action json false nonce in
      let d' = record d { mrtap = mrtap' } in
      elim built [
        | ok msg ↦ (
          conn_send d' (record {
            channel_id = d.id;
            message_type = open_data_channel;
            schema_version = "";
            message_payload = opening.write (marshal w.json msg) action;
          }),
          ok tt,
        )
        | err e ↦ (d', err (mrtap_error e))
        | panic ↦ (d', panic)
      ]

  unfoldable pub start :
      DataChannel V M C P
      → Bool
      → String
      → Option Bytes
      → String
      → DataChannel V M C P × Outcome ChannelError (Unit {0})
  start d attach action json nonce =
      let (mrtap', built) = Daemon.build_syn x o c d.mrtap action json true nonce in
      let d' = record d { mrtap = mrtap' } in
      if not attach then open_data_channel_with d action json nonce else elim built [
        | ok msg ↦ (d', ok tt)
        | err e ↦ (d', err (mrtap_error e))
        | panic ↦ (d', panic)
      ]

  -- The switch on the payload's type.
  unfoldable pub pass_on :
      DataChannel V M C P
      → Message
      → Payload
      → DataChannel V M C P × Outcome ChannelError (Unit {0})
  pass_on d msg (syn_ack_payload p) = (d, ok tt)
  pass_on d msg (data_ack_payload p) =
      let (plugin', failure) =
        plugins.receive_mrtap d.plugin (Message.get_action msg) (Message.get_action_payload msg) in
      let d' = record d { plugin = plugin' } in
      elim failure [ none ↦ (d', ok tt) | some e ↦ (d', err (plugin_error e)) ]
  pass_on d msg _ = (d, err unhandled_mrtap_type)

  unfoldable pub handle_mrtap :
      DataChannel V M C P → AgentMessage → DataChannel V M C P × Outcome ChannelError (Unit {0})
  unfolding pass_on
  handle_mrtap d m = elim (unmarshal w.json m.message_payload) [
    | err e ↦ (d, err (malformed_message e))
    | panic ↦ (d, panic)
    | ok msg ↦
        let (mrtap', validated) = Recovery.validate x o c d.mrtap msg in
        let d' = record d { mrtap = mrtap' } in
        elim validated [
          | ok _ ↦ pass_on d' msg msg.payload
          | err e ↦ (d', err (mrtap_error e))
          | panic ↦ (d', panic)
        ]
  ]

  unfoldable pub handle_error :
      DataChannel V M C P
      → AgentMessage
      → String
      → DataChannel V M C P × Outcome ChannelError (Unit {0})
  handle_error d m nonce = elim (w.read_error m.message_payload) [
    | none ↦ (d, err malformed_error)
    | some e ↦
        let (mrtap', recovered) = Recovery.recover x o c d.mrtap e nonce in
        let d' = record d { mrtap = mrtap' } in
        if str_eq e.type mrtap_validation_error
        then elim recovered [
          | ok _ ↦ (d', ok tt)
          | err f ↦ (d', err (mrtap_error f))
          | panic ↦ (d', panic)
        ]
        else elim (check_for_known_errors e.message) [
          | some k ↦ (d, err (known k))
          | none ↦ (d, err (fatal e))
        ]
  ]

  unfoldable pub handle_stream :
      DataChannel V M C P → AgentMessage → DataChannel V M C P × Outcome ChannelError (Unit {0})
  handle_stream d m = elim (plugins.receive_stream d.plugin m.message_payload) [
    | none ↦ (d, err malformed_stream)
    | some plugin' ↦ (record d { plugin = plugin' }, ok tt)
  ]

  -- `tmb.Kill` keeps the first reason.
  unfoldable pub kill : DataChannel V M C P → ChannelError → DataChannel V M C P
  kill d e = record d { killed = elim d.killed [ none ↦ some e | some first ↦ some first ] }

  -- An error that cannot be recovered from kills the channel; one of a MrTAP message is logged.
  unfoldable pub process_input_message :
      DataChannel V M C P
      → AgentMessage
      → String
      → DataChannel V M C P × Outcome ChannelError (Unit {0})
  unfolding kill
  process_input_message d m nonce = elim m.message_type [
    | error ↦
        let (d', handled) = handle_error d m nonce in
        elim handled [ ok _ ↦ (d', ok tt) | err e ↦ (kill d' e, ok tt) | panic ↦ (d', panic) ]
    | mrtap ↦
        let (d', handled) = handle_mrtap d m in
        elim handled [ panic ↦ (d', panic) | _ ↦ (d', ok tt) ]
    | stream ↦ handle_stream d m
    | _ ↦ (d, err unhandled_message_type)
  ]

  -- The goroutine `sendMrtap`: a message taken off the outbox is sent or, while recovering, dropped
  -- unless it is a Syn.
  unfoldable pub send_mrtap : DataChannel V M C P → Message → DataChannel V M C P
  unfolding send
  send_mrtap d msg =
      if is_syn msg.type || not d.mrtap.recovering
      then send d mrtap_legacy (marshal w.json msg)
      else d

  unfoldable pub receive : DataChannel V M C P → AgentMessage → DataChannel V M C P
  receive d m = elim d.killed [
    | none ↦ record d { input_chan = d.input_chan ++ (m ∷ []) }
    | some e ↦ d
  ]
