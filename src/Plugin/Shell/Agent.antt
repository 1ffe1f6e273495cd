-- ===== src/Plugin/Shell/Agent.antt =====
-- bctl/agent/plugin/shell/actions/defaultshell/defaultshell.go: the agent's end, which runs a terminal. The
-- goroutine `writePump` and the calls of `Receive` interleave, and are steps of one state.
use bzero.Shared.{
  ℕ, ◌+◌, Bool, true, false, Option, none, some, String, List, [], ◌∷◌, ◌++◌, if◌then◌else◌, str_eq,
  Outcome, ok, err, panic,
}
use bzero.Mrtap.Types.{Bytes}
use bzero.RingBuffer.{RingBuffer, SanityError, new, write, read_all}
use bzero.Plugin.Stream.{StreamType, StreamMessage, Base64, std_out, stop}
use bzero.Plugin.Shell.{ShellJson, shell_open, shell_close, shell_resize, shell_input, shell_replay}

-- The terminal, when it is not nil: what was written to its standard input, and its size once it was set.
pub record Terminal : Type 0 where
  pub typed : List Bytes
  pub window : Option (ℕ × ℕ)

-- The fields of `DefaultShell`, what was sent to `streamOutputChan`, and whether `writePump` is to start and
-- whether it runs.
pub record DefaultShell : Type 0 where
  pub stream_message_version : String
  pub stream_sequence_number : ℕ
  pub ring_buffer : Option RingBuffer
  pub terminal : Option Terminal
  pub sent : List StreamMessage
  pub starting : Bool
  pub pumping : Bool

pub data ShellError : Type 0 where
  malformed_open malformed_input malformed_resize : ShellError
  already_open no_terminal create_failed write_failed resize_failed replay_failed : ShellError
  unrecognized_action : ShellError

-- `shellStdOutBuffCapacity`
unfoldable pub shell_std_out_buff_capacity : ℕ
shell_std_out_buff_capacity = 10000

-- What `New` makes.
unfoldable pub new_shell : DefaultShell
new_shell = record {
  stream_message_version = "";
  stream_sequence_number = 1;
  ring_buffer = none;
  terminal = none;
  sent = [];
  starting = false;
  pumping = false;
}

-- `Kill`, without the wait for `writePump` to end.
unfoldable pub kill : DefaultShell → DefaultShell
kill d = record d { terminal = none }

-- What the pseudo terminal does: whether one can be made, and whether a write and a change of size succeed.
pub record Terminals : Type 0 where
  pub creates : Bool
  pub writes : Bool
  pub resizes : Bool

-- The end of `writePump`: the deferred `Kill`.
abbrev pub end_pump : DefaultShell → DefaultShell
end_pump d = kill (record d { pumping = false })

-- What `writePump` does before its loop; a terminal that is nil makes it panic, which is recovered.
unfoldable pub pump_starts : DefaultShell → DefaultShell
pump_starts d =
    let ready = record d {
      ring_buffer = some (new shell_std_out_buff_capacity);
      starting = false;
      pumping = true;
    } in
    if d.starting then elim d.terminal [ none ↦ end_pump ready | some terminal ↦ ready ] else d

module _ (b : Base64) where
  unfoldable pub send_stream_message : StreamType → Bytes → DefaultShell → DefaultShell
  send_stream_message t bytes d = record d {
    stream_sequence_number = d.stream_sequence_number + 1;
    sent =
        d.sent
        ++ record {
          request_id = "";
          schema_version = d.stream_message_version;
          sequence_number = d.stream_sequence_number;
          action = "shell/default";
          stream_type = t;
          more = false;
          log_id = "";
          content = b.encode bytes;
        }
          ∷ [];
  }

  -- What `writePump` writes of a read; a panic is recovered, and ends it.
  abbrev pub keep_and_send : Bytes → DefaultShell → Option (RingBuffer × ℕ) → DefaultShell
  keep_and_send bytes d none = end_pump d
  keep_and_send bytes d (some (ring, n)) =
      send_stream_message std_out bytes (record d { ring_buffer = some ring })

  abbrev pub keep_in : Bytes → DefaultShell → Option RingBuffer → DefaultShell
  keep_in bytes d none = end_pump d
  keep_in bytes d (some ring) = keep_and_send bytes d (write ring bytes)

  -- A round of the loop in which the terminal's output was read.
  unfoldable pub pump_reads : Bytes → DefaultShell → DefaultShell
  pump_reads bytes d = if d.pumping then keep_in bytes d d.ring_buffer else d

  -- A round in which the read failed, with what it had read; or the command had ended.
  unfoldable pub pump_stops : Bytes → DefaultShell → DefaultShell
  pump_stops bytes d = if d.pumping then end_pump (send_stream_message stop bytes d) else d

-- A round that found the terminal nil: the panic is recovered.
unfoldable pub pump_crashes : DefaultShell → DefaultShell
pump_crashes d = if d.pumping then end_pump d else d

-- `open`, which starts `writePump`.
unfoldable pub open_shell : Terminals → DefaultShell → Outcome ShellError Bytes × DefaultShell
open_shell t d = elim d.terminal [
  | some terminal ↦ (err already_open, d)
  | none ↦
      if t.creates
      then (
        ok [],
        record d { terminal = some (record { typed = []; window = none }); starting = true },
      )
      else (err create_failed, d)
]

unfoldable pub write_to_terminal :
    Terminals → Bytes → DefaultShell → Outcome ShellError Bytes × DefaultShell
write_to_terminal t bytes d = elim d.terminal [
  | none ↦ (err no_terminal, d)
  | some terminal ↦
      if t.writes
      then (
        ok [],
        record d { terminal = some (record terminal { typed = terminal.typed ++ bytes ∷ [] }) },
      )
      else (err write_failed, d)
]

unfoldable pub set_size : Terminals → ℕ × ℕ → DefaultShell → Outcome ShellError Bytes × DefaultShell
set_size t size d = elim d.terminal [
  | none ↦ (err no_terminal, d)
  | some terminal ↦
      if t.resizes
      then (ok [], record d { terminal = some (record terminal { window = some size }) })
      else (err resize_failed, d)
]

-- `ReadAll` of a ring buffer that is nil panics.
abbrev pub replayed : Option (List ℕ × Option SanityError) → Outcome ShellError Bytes
replayed none = panic
replayed (some (bytes, none)) = ok bytes
replayed (some (bytes, some e)) = err replay_failed

abbrev pub replay_ring : Option RingBuffer → Outcome ShellError Bytes
replay_ring none = panic
replay_ring (some ring) = replayed (read_all ring)

unfoldable pub replay : DefaultShell → Outcome ShellError Bytes
replay d = replay_ring d.ring_buffer

unfoldable pub receive :
    ShellJson → Terminals → String → Bytes → DefaultShell → Outcome ShellError Bytes × DefaultShell
receive j t action payload d =
    if str_eq action shell_open
    then elim (j.unmarshal_open payload) [
      | none ↦ (err malformed_open, d)
      | some version ↦ open_shell t (record d { stream_message_version = version })
    ]
    else if str_eq action shell_close
    then (ok [], kill d)
    else if str_eq action shell_input
    then elim (j.unmarshal_input payload) [
      | none ↦ (err malformed_input, d)
      | some bytes ↦ write_to_terminal t bytes d
    ]
    else if str_eq action shell_resize
    then elim (j.unmarshal_resize payload) [
      | none ↦ (err malformed_resize, d)
      | some size ↦ set_size t size d
    ]
    else if str_eq action shell_replay
    then (replay d, d)
    else (err unrecognized_action, d)

-- What happens to the shell: a call of `Receive`, or a step of `writePump`.
pub data Event : Type 0 where
  received : Terminals → String → Bytes → Event
  starts crashes : Event
  reads stops : Bytes → Event

module _ (b : Base64) (j : ShellJson) where
  unfoldable pub happen : Event → DefaultShell → DefaultShell
  happen (received t action payload) d = (receive j t action payload d).1
  happen starts d = pump_starts d
  happen (reads bytes) d = pump_reads b bytes d
  happen (stops bytes) d = pump_stops b bytes d
  happen crashes d = pump_crashes d

  unfoldable pub run : List Event → DefaultShell → DefaultShell
  run [] d = d
  run (e ∷ es) d = run es (happen e d)
