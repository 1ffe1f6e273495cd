-- ===== src/Channel/Tests.antt =====
-- The theorems on the connection's channels at concrete brokers and messages.
use bzero.Shared.{
  ℕ, ◌+◌, ◌≡◌, ◌≢◌, refl, true, false, none, some, String, List, [], ◌∷◌, ok, err, panic, arith,
}
use bzero.Shared.{◌⊎◌, ◌≤◌, str_eq, length, panic, arith}
use bzero.Mrtap.Types.{Bytes}
use bzero.Mrtap.Message.Json.{marshal}
use bzero.Mrtap.PipelineMap.{Pairs}
use bzero.Mrtap.Agent as Mrtap
use bzero.Mrtap.Agent.Accept.{Admissible, validate-data_iff}
use bzero.Mrtap.Sample.{world, pairs_map, wallet, Wallet}
use bzero.Mrtap.Sample.Ends.{ready_agent, signed_input, first_input, signed_syn, stalled_daemon}
use bzero.Channel.Wire.{Wire}
use bzero.Channel.Agent
use bzero.Channel.Agent.Answers.{Answers, process_input-Answers}
use bzero.Channel.Agent.Guard.{IsAccepted, process_input-guarded, one_byte_panics}
use bzero.Channel.Daemon
use bzero.Channel.Daemon.Handshake
use bzero.Channel.Daemon.Handshake.{
  handshake_or_timeout, HasFailed, handshake-bounded, handshake-fails,
}
use bzero.Channel.Daemon.Outbox
use bzero.Channel.Daemon.Outbox.{
  send_each, send_each-sent, without_streams, wait_for_remaining_messages, wait-without_streams,
  IsTrusted, process_input_message-guarded,
}
use bzero.Channel.Sample.{hello, json, agent_wire, echo, shell_channel}
use bzero.Channel.Types.{AgentMessage, mrtap_legacy, error, stream}
use bzero.Channel.Broker.{
  Subscribers, closed, no_subscriber, direct_message, close_channel, num_channels, lookup,
}
use bzero.Channel.Broker.Laws.{IsMap, close_channel-removes}

abbrev two_channels : Subscribers ℕ
two_channels = ("a", some 1) ∷ ("b", some 2) ∷ []

two_channels-IsMap : IsMap two_channels
unfolding lookup
two_channels-IsMap = (refl, (refl, tt))

close_channel-removes_example :
    (b' : Subscribers ℕ) × (close_channel two_channels "a" "done"
      ≡ (b', closed 1 "done" ∷ [], ok true))
    × IsMap b'
    × (direct_message b' "a" hello ≡ ([], err no_subscriber))
    × ((other' : String)
        → "a" ≢ other'
        → direct_message b' other' hello ≡ direct_message two_channels other' hello)
    × (num_channels b' + 1 ≡ num_channels two_channels)
unfolding lookup
close_channel-removes_example =
    close_channel-removes two_channels "a" "done" 1 hello two_channels-IsMap subscribed
  where
    subscribed : lookup "a" two_channels ≡ some (some 1)
    subscribed = refl

abbrev daemon_wire : Wire Daemon.ChannelError
daemon_wire = record {
  json = json;
  write_error = λ e. [];
  read_error = λ bytes. none;
  text_of = λ bytes. "";
  print_error = λ e. "error";
  contains = λ s part. str_eq s part;
  last_piece = λ s part. s;
}

abbrev screen : Daemon.Plugins Bytes
screen = record {
  receive_mrtap = λ plugin action payload. (payload, none);
  receive_stream = λ plugin bytes. some bytes;
  outbox_length = λ plugin. 0;
}

abbrev opening : Daemon.Opening
opening = record { write = λ syn action. syn }

process_input-Answers_example :
    Answers world agent_wire echo shell_channel
      (Agent.process_input world agent_wire echo shell_channel 10 "random" hello).0
process_input-Answers_example =
    process_input-Answers world agent_wire echo shell_channel 10 "random" hello

process_input-guarded_example :
    ((Agent.process_input world agent_wire echo shell_channel 10 "random" hello).0.plugin
      ≡ shell_channel.plugin)
    ⊎ IsAccepted world agent_wire echo shell_channel 10 hello
process_input-guarded_example =
    process_input-guarded world agent_wire echo shell_channel 10 "random" hello

input-Admissible : Admissible world ready_agent 10 signed_input first_input
unfolding signed_input Mrtap.validate Mrtap.validate_data ready_agent Mrtap.as_agent
    bzero.Mrtap.Message.verify_signature bzero.Mrtap.Keypair.verify bzero.Mrtap.Keypair.sign
    Mrtap.accept_data bzero.Mrtap.BzCert.expired
input-Admissible =
    (validate-data_iff world ready_agent 10 signed_input first_input (refl, refl)).0.0 refl

one_byte_panics_example :
    (Agent.handle_mrtap_message world agent_wire echo
      (record shell_channel { payload_clean = false })
      10
      "random"
      signed_input).1
    ≡ panic
unfolding signed_input
one_byte_panics_example =
    one_byte_panics world agent_wire echo (record shell_channel { payload_clean = false }) 10
      "random" signed_input first_input [] (refl, refl) input-Admissible refl refl refl

abbrev shell_view : Daemon.DataChannel ℕ Pairs Wallet Bytes
shell_view = record {
  id = "dc";
  mrtap = stalled_daemon;
  plugin = [];
  sent = [];
  input_chan = [];
  killed = none;
}

abbrev refused : AgentMessage
refused = record {
  channel_id = "dc";
  message_type = error;
  schema_version = "1.0";
  message_payload = [];
}

abbrev refusals : List Handshake.Event
refusals =
    Handshake.received refused "n1"
    ∷ Handshake.received refused "n2"
    ∷ Handshake.received refused "n3"
    ∷ Handshake.received refused "n4"
    ∷ []

handshake-bounded_example :
    length
      (handshake_or_timeout world pairs_map wallet daemon_wire screen opening false "shell/open"
        (some [])
        "n0"
        refusals
        shell_view).0.sent
    ≤ 4
handshake-bounded_example =
    handshake-bounded world pairs_map wallet daemon_wire screen opening false "shell/open" (some [])
      "n0" refusals shell_view

handshake-fails_example :
    HasFailed world pairs_map wallet daemon_wire screen opening
      (handshake_or_timeout world pairs_map wallet daemon_wire screen opening false "shell/open"
        (some [])
        "n0"
        refusals
        shell_view).1
handshake-fails_example =
    handshake-fails world pairs_map wallet daemon_wire screen opening false "shell/open" (some [])
      "n0" refusals shell_view (refl, (refl, (refl, (refl, tt)))) (omega arith)

send_each-sent_example :
    (send_each world pairs_map wallet daemon_wire screen opening
      (record shell_view { mrtap = record stalled_daemon { recovering = true } })
      (signed_input ∷ signed_syn ∷ [])).sent
    ≡ record {
      channel_id = "dc";
      message_type = mrtap_legacy;
      schema_version = "1.0";
      message_payload = marshal json signed_syn;
    }
      ∷ []
unfolding Daemon.is_syn signed_input
send_each-sent_example =
    send_each-sent world pairs_map wallet daemon_wire screen opening
      (signed_input ∷ signed_syn ∷ [])
      (record shell_view { mrtap = record stalled_daemon { recovering = true } })

abbrev last_events : List Outbox.Event
last_events =
    Outbox.arrived (record refused { message_type = stream }) "n1"
    ∷ Outbox.check_outbox
    ∷ Outbox.absolute_timeout
    ∷ []

process_input_message-guarded_example :
    ((Daemon.process_input_message world pairs_map wallet daemon_wire screen opening shell_view
        hello "nonce").0.plugin
      ≡ [])
    ⊎ IsTrusted world pairs_map wallet daemon_wire screen opening shell_view hello
process_input_message-guarded_example =
    process_input_message-guarded world pairs_map wallet daemon_wire screen opening shell_view hello
      "nonce" (λ e. cc)
