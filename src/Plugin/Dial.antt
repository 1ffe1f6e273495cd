-- ===== src/Plugin/Dial.antt =====
-- The db plugin's `Dial` action: bzerolib/plugin/db/actions/dial and what both ends take from
-- encoding/json. The agent's end is `Agent`, the daemon's `Daemon`.
pub mod Agent
pub mod Daemon
pub mod Delivery
pub mod Input
use bzero.Shared.{ℕ, ◌≡◌, some, Option, String}
use bzero.Mrtap.Types.{Bytes}

abbrev pub dial_start : String
dial_start = "db/dial/start"

abbrev pub dial_input : String
dial_input = "db/dial/input"

abbrev pub dial_stop : String
dial_stop = "db/dial/stop"

pub record DialActionPayload : Type 0 where
  pub request_id : String
  pub stream_message_version : String

pub record DialInputActionPayload : Type 0 where
  pub request_id : String
  pub sequence_number : ℕ
  pub data_text : String

-- encoding/json at the payloads
pub record DialJson : Type 0 where
  pub marshal_start : DialActionPayload → Bytes
  pub unmarshal_start : Bytes → Option DialActionPayload
  pub marshal_input : DialInputActionPayload → Bytes
  pub unmarshal_input : Bytes → Option DialInputActionPayload

-- What is documented of it: a struct of texts and numbers that was marshalled is read back.
pub record IsDialJson (j : DialJson) : Type 0 where
  pub start_back : (p : DialActionPayload) → j.unmarshal_start (j.marshal_start p) ≡ some p
  pub input_back : (p : DialInputActionPayload) → j.unmarshal_input (j.marshal_input p) ≡ some p
