-- ===== src/Channel/Sample.antt =====
-- A small wire, a plugin and an open data channel of the agent, for tests.
use bzero.Shared.{ℕ, true, none, some, [], ok, str_eq}
use bzero.Mrtap.Types.{Bytes}
use bzero.Mrtap.Message.Json.{Json}
use bzero.Mrtap.Sample.Ends.{ready_agent}
use bzero.Channel.Types.{AgentMessage, mrtap}
use bzero.Channel.Wire.{Wire}
use bzero.Channel.Agent

abbrev pub hello : AgentMessage
hello = record {
  channel_id = "a";
  message_type = mrtap;
  schema_version = "1.0";
  message_payload = [];
}

-- The small world's wire: a JSON reader that finds nothing, and texts that hold no error.
abbrev pub json : Json Bytes
json = record {
  write_object = λ fields. [];
  read_object = λ bytes. none;
  write_string = λ s. [];
  read_string = λ bytes. none;
  write_payload = λ p. [];
  read_syn = λ bytes. none;
  read_syn_ack = λ bytes. none;
  read_data = λ bytes. none;
  read_data_ack = λ bytes. none;
}

abbrev pub agent_wire : Wire Agent.ChannelError
agent_wire = record {
  json = json;
  write_error = λ e. [];
  read_error = λ bytes. none;
  text_of = λ bytes. "";
  print_error = λ e. "error";
  contains = λ s part. str_eq s part;
  last_piece = λ s part. s;
}

-- A plugin that keeps the last payload it received, and answers with it.
abbrev pub echo : Agent.Plugins Bytes
echo = record {
  start = λ name action payload. (payload, none);
  receive = λ plugin action payload. (payload, ok payload);
}

-- A shell is open at the agent.
abbrev pub shell_channel : Agent.DataChannel ℕ Bytes
shell_channel = record {
  id = "dc";
  mrtap = ready_agent;
  plugin = some [];
  payload_clean = true;
  output_chan = [];
  is_alive = true;
  input_chan = [];
}
