-- ===== src/Plugin/Shell/Daemon.antt =====
-- bctl/daemon/plugin/shell/actions/defaultshell/defaultshell.go: the daemon's end, between a user's terminal
-- and the agent's shell. Its goroutines are functions of what they are woken by.
use bzero.Shared.{
  ℕ, Bool, true, false, Option, none, some, String, List, [], ◌∷◌, ◌++◌, ◌||◌, ◌==◌, if◌then◌else◌,
}
use bzero.Mrtap.Types.{Bytes}
use bzero.Plugin.Stream.{StreamType, StreamMessage, Base64, std_out, stop}
use bzero.Plugin.Shell.{ShellJson, shell_open, shell_input, shell_replay}

pub record ActionWrapper : Type 0 where
  pub action : String
  pub action_payload : Bytes

-- Whether an agent answered, what was handed to the standard output, and whether the shell was quit.
pub record DefaultShell : Type 0 where
  pub is_connected : Bool
  pub shown : List Bytes
  pub quit : Bool

-- What wakes `sendStdIn`: a key, `inputDebounceTime` without a key, or the end of the action.
pub data Wake : Type 0 where
  key : ℕ → Wake
  quiet : Wake
  dying : Wake

unfoldable pub start : ShellJson → Bool → ActionWrapper
start j attach =
    if attach
    then record { action = shell_replay; action_payload = j.marshal_replay }
    else record { action = shell_open; action_payload = j.marshal_open "202204" }

module _ (b : Base64) where
  abbrev show : Option Bytes → DefaultShell → DefaultShell
  show none d = d
  show (some bytes) d = record d { shown = d.shown ++ bytes ∷ [] }

  unfoldable pub receive_as : StreamType → StreamMessage → DefaultShell → DefaultShell
  receive_as std_out m d = show (b.decode m.content) d
  receive_as stop m d = record d { quit = true }
  receive_as _ m d = d

  unfoldable pub receive_stream : StreamMessage → DefaultShell → DefaultShell
  receive_stream m d = receive_as m.stream_type m (record d { is_connected = true })

unfoldable pub replay : Bytes → DefaultShell → DefaultShell
replay bytes d = record d { shown = d.shown ++ bytes ∷ [] }

-- The loop of `sendStdIn`, from what it has gathered.
unfoldable pub send_std_in : ShellJson → Bytes → List Wake → List ActionWrapper
send_std_in j gathered [] = []
send_std_in j gathered (dying ∷ wakes) = []
send_std_in j gathered (key k ∷ wakes) = send_std_in j (gathered ++ k ∷ []) wakes
send_std_in j [] (quiet ∷ wakes) = send_std_in j [] wakes
send_std_in j (x ∷ xs) (quiet ∷ wakes) =
    record { action = shell_input; action_payload = j.marshal_input (x ∷ xs) }
    ∷ send_std_in j [] wakes

-- The loop of `readFromStdIn`, over the keys and whether an agent had answered by then: the keys that
-- are passed on, and whether the user cancelled.
unfoldable pub read_from_std_in : List (ℕ × Bool) → Bytes × Bool
read_from_std_in [] = ([], false)
read_from_std_in ((k, connected) ∷ keys) =
    let rest = read_from_std_in keys in
    let cancels = (k == 3) || ((k == 4) || (k == 28)) in
    if connected then (k ∷ rest.0, rest.1) else if cancels then ([], true) else (k ∷ rest.0, rest.1)
