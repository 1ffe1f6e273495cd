-- ===== src/Plugin/ShellTests.antt =====
-- Runs of the shell's action, and its theorems at concrete codecs and events.
use bzero.Shared.{
  ◌≡◌, refl, true, false, none, some, List, [], ◌∷◌, ◌++◌, length, drop, last_of, ok, panic,
}
use bzero.Mrtap.Types.{Bytes}
use bzero.Mrtap.Sample.{encode, decode, decode-encode}
use bzero.RingBuffer.Replay.{concat}
use bzero.Plugin.Codec.{nat, both, list, text_codec, write, read, read-write}
use bzero.Plugin.Stream.{Base64, number}
use bzero.Plugin.InOrder.{Numbered}
use bzero.Plugin.Shell.{ShellJson, IsShellJson, shell_input, shell_replay, shell_close}
use bzero.Plugin.Shell.Agent.{
  Terminal, Terminals, DefaultShell, Event, received, starts, reads, crashes, new_shell,
  pump_starts, replay, run, shell_std_out_buff_capacity,
}
use bzero.Plugin.Shell.Daemon.{Wake, key, quiet, send_std_in}
use bzero.Plugin.Shell.Replay.{stdout_of, run-replay}
use bzero.Plugin.Shell.Numbers.{run-Numbered}
use bzero.Plugin.Shell.Keys.{receive_all, keys_of, receive_all-keys_of}

abbrev base64 : Base64
base64 = record { encode = encode; decode = decode }

abbrev shell_json : ShellJson
shell_json = record {
  marshal_open = write text_codec;
  unmarshal_open = read text_codec;
  marshal_input = write (list nat);
  unmarshal_input = read (list nat);
  unmarshal_resize = read (both nat nat);
  marshal_replay = [];
}

shell_json-IsShellJson : IsShellJson shell_json
shell_json-IsShellJson = record {
  open_back = read-write text_codec;
  input_back = read-write (list nat);
}

abbrev willing : Terminals
willing = record { creates = true; writes = true; resizes = true }

abbrev empty_terminal : Terminal
empty_terminal = record { typed = []; window = none }

-- A shell that was just opened.
abbrev opened : DefaultShell
opened = record {
  stream_message_version = "202204";
  stream_sequence_number = 1;
  ring_buffer = none;
  terminal = some empty_terminal;
  sent = [];
  starting = true;
  pumping = false;
}

abbrev session : List Event
session =
    reads (1 ∷ 2 ∷ [])
    ∷ received willing shell_input (1 ∷ 7 ∷ [])
    ∷ reads (3 ∷ [])
    ∷ received willing shell_close []
    ∷ crashes
    ∷ []

-- A replay before the ring buffer is made panics.
early_replay : replay new_shell ≡ panic
unfolding replay new_shell
early_replay = refl

run-replay_example :
    let r = run base64 shell_json session (pump_starts opened) in
    replay r
    ≡ ok (last_of shell_std_out_buff_capacity (stdout_of base64 (drop (length opened.sent) r.sent)))
run-replay_example =
    run-replay base64 shell_json opened empty_terminal session decode-encode refl refl tt

run-Numbered_example :
    Numbered number 1
      (run base64 shell_json (received willing shell_replay [] ∷ starts ∷ session) new_shell).sent
run-Numbered_example =
    run-Numbered base64 shell_json (received willing shell_replay [] ∷ starts ∷ session)

abbrev typing : List Wake
typing = key 108 ∷ key 115 ∷ quiet ∷ quiet ∷ key 13 ∷ []

receive_all-keys_of_example :
    let after =
      receive_all shell_json willing (send_std_in shell_json [] (typing ++ quiet ∷ [])) opened in
    (typed : List Bytes) × (after
      ≡ record opened { terminal = some (record empty_terminal { typed = typed }) })
    × (concat typed ≡ concat empty_terminal.typed ++ keys_of typing)
receive_all-keys_of_example =
    receive_all-keys_of shell_json willing opened empty_terminal typing shell_json-IsShellJson refl
      refl tt
