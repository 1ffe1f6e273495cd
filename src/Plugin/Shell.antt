-- ===== src/Plugin/Shell.antt =====
-- The shell plugin's default action: bzerolib/plugin/shell/shell.go and what both ends take from
-- encoding/json. The agent's end is `Agent`, the daemon's `Daemon`.
pub mod Agent
pub mod Daemon
pub mod Replay
pub mod Numbers
pub mod Keys
use bzero.Shared.{ℕ, ◌≡◌, some, Option, String}
use bzero.Mrtap.Types.{Bytes}

abbrev pub shell_open : String
shell_open = "shell/open"

abbrev pub shell_close : String
shell_close = "shell/close"

abbrev pub shell_resize : String
shell_resize = "shell/resize"

abbrev pub shell_input : String
shell_input = "shell/input"

abbrev pub shell_replay : String
shell_replay = "shell/replay"

-- `ShellOpenMessage` is its version, `ShellInputMessage` its bytes, `ShellResizeMessage` its columns and rows.
-- encoding/json at the payloads
pub record ShellJson : Type 0 where
  pub marshal_open : String → Bytes
  pub unmarshal_open : Bytes → Option String
  pub marshal_input : Bytes → Bytes
  pub unmarshal_input : Bytes → Option Bytes
  pub unmarshal_resize : Bytes → Option (ℕ × ℕ)
  -- the struct without fields
  pub marshal_replay : Bytes

-- What is documented of it: a payload that was marshalled is read back.
pub record IsShellJson (j : ShellJson) : Type 0 where
  pub open_back : (version : String) → j.unmarshal_open (j.marshal_open version) ≡ some version
  pub input_back : (bytes : Bytes) → j.unmarshal_input (j.marshal_input bytes) ≡ some bytes
