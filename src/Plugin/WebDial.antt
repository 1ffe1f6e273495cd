-- ===== src/Plugin/WebDial.antt =====
-- The web plugin's `Dial` action: bzerolib/plugin/web/actions/webdial and what both ends take from
-- encoding/json. The agent's end is `Agent`, the daemon's `Daemon`.
pub mod Http
pub mod Agent
pub mod Daemon
pub mod Request
pub mod Response
use bzero.Shared.{ℕ, ◌≡◌, some, Option, Bool, String, List, [], ◌∷◌, str_eq, if◌then◌else◌}
use bzero.Mrtap.Types.{Bytes}

abbrev pub web_dial_start : String
web_dial_start = "web/dial/start"

abbrev pub web_dial_input : String
web_dial_input = "web/dial/datain"

abbrev pub web_dial_interrupt : String
web_dial_interrupt = "web/dial/interrupt"

-- `map[string][]string`
abbrev pub Headers : Type 0
Headers = List (String × List String)

-- A write to the Go map, as `Header.Set` makes it.
unfoldable pub set_header : String → List String → Headers → Headers
set_header name values [] = (name, values) ∷ []
set_header name values ((k, v) ∷ hs) =
    let rest = set_header name values hs in
    if str_eq k name then (k, values) ∷ hs else (k, v) ∷ rest

pub record WebDialActionPayload : Type 0 where
  pub request_id : String
  pub stream_message_version : String

pub record WebInputActionPayload : Type 0 where
  pub body : Bytes
  pub endpoint : String
  pub headers : Headers
  pub http_method : String
  pub sequence_number : ℕ
  pub request_id : String
  pub more : Bool

pub record WebOutputActionPayload : Type 0 where
  pub status_code : ℕ
  pub request_id : String
  pub headers : Headers
  pub content : Bytes

-- encoding/json at the payloads
pub record WebJson : Type 0 where
  pub marshal_start : WebDialActionPayload → Bytes
  pub unmarshal_start : Bytes → Option WebDialActionPayload
  pub marshal_input : WebInputActionPayload → Bytes
  pub unmarshal_input : Bytes → Option WebInputActionPayload
  pub marshal_interrupt : String → Bytes
  pub marshal_output : WebOutputActionPayload → Bytes
  pub unmarshal_output : Bytes → Option WebOutputActionPayload

-- What is documented of it: a struct that was marshalled is read back.
pub record IsWebJson (j : WebJson) : Type 0 where
  pub start_back : (p : WebDialActionPayload) → j.unmarshal_start (j.marshal_start p) ≡ some p
  pub input_back : (p : WebInputActionPayload) → j.unmarshal_input (j.marshal_input p) ≡ some p
  pub output_back : (p : WebOutputActionPayload) → j.unmarshal_output (j.marshal_output p) ≡ some p
