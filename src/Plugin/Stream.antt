-- ===== src/Plugin/Stream.antt =====
-- bzerolib/stream/message/streammessage.go: the messages that an agent streams to a daemon, and what
-- the actions of both sides take from encoding/base64 and encoding/json.
use bzero.Shared.{ℕ, ◌≡◌, Bool, Option, some, String, str_eq}
use bzero.Mrtap.Types.{Bytes}

-- `StreamType`; `other` is any text that is not one of the constants.
pub data StreamType : Type 0 where
  std_err std_out : StreamType
  data_message error : StreamType
  start stop stream : StreamType
  ready : StreamType
  ready_port_forward data_port_forward error_port_forward : StreamType
  db_stream db_stream_end : StreamType
  web_error web_stream web_stream_end : StreamType
  data_out agent_stop : StreamType
  stream_data stream_start stream_stop stream_end : StreamType
  other : String → StreamType

pub record StreamMessage : Type 0 where
  pub request_id : String
  pub schema_version : String
  pub sequence_number : ℕ
  pub action : String
  pub stream_type : StreamType
  pub more : Bool
  pub log_id : String
  pub content : String

-- The schema version of an agent or a daemon prior to 202204.
abbrev pub is_legacy : String → Bool
is_legacy v = str_eq v ""

abbrev pub number : StreamMessage → ℕ
number m = m.sequence_number

-- encoding/base64
pub record Base64 : Type 0 where
  pub encode : Bytes → String
  pub decode : String → Option Bytes

-- What is documented of the encoding: its text decodes to the bytes.
abbrev pub IsBase64 : Base64 → Type 0
IsBase64 b = (xs : Bytes) → b.decode (b.encode xs) ≡ some xs
