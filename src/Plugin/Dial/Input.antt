-- ===== src/Plugin/Dial/Input.antt =====
-- The db action upstream: what the daemon reads from its local connection and sends as MrTAP messages,
-- against what the agent writes to its TCP connection (bctl/daemon and bctl/agent,
-- plugin/db/actions/dial/dial.go). MrTAP messages come in the order in which they were sent.
use bzero.Shared.{
  ◌≡◌, ◌≢◌, ◌↔◌, Bool, true, false, not, Option, none, some, String, List, [], ◌∷◌, arith, eq_iff,
  Outcome, ok, err, panic, ◌>>=◌,
}
use bzero.Mrtap.Types.{Bytes}
use bzero.Plugin.Stream.{Base64}
use bzero.Plugin.Dial.{DialJson, dial_start, dial_input, dial_stop}
use bzero.Plugin.Dial.Agent.{
  Dial, DialError, receive, dial_connection, input_connection, write_remote,
}
use bzero.Plugin.Dial.Daemon.{LocalRead, ActionWrapper, got, failed, dead}

-- What `New` makes.
unfoldable pub new_dial : Dial
new_dial = record {
  alive = true;
  request_id = "";
  stream_message_version = "";
  remote_connection = none;
}

-- The contents that were read from the local connection.
abbrev pub inputs : List LocalRead → List Bytes
inputs [] = []
inputs (dead ∷ reads) = []
inputs (failed ∷ reads) = []
inputs (got [] ∷ reads) = inputs reads
inputs (got (x ∷ xs) ∷ reads) = (x ∷ xs) ∷ inputs reads

-- Whether a read failed, at the end of the connection for instance.
abbrev pub fails : List LocalRead → Bool
fails [] = false
fails (dead ∷ reads) = false
fails (failed ∷ reads) = true
fails (got bytes ∷ reads) = fails reads

-- The agent with a connection that is open.
abbrev pub connected : String → String → List Bytes → Dial
connected request_id version handed = record {
  alive = true;
  request_id = request_id;
  stream_message_version = version;
  remote_connection = some (record { handed = handed; closed = false });
}

-- It is open, or the action was killed.
abbrev pub ended_at : String → String → List Bytes → Bool → Dial
ended_at request_id version handed over = record {
  alive = not over;
  request_id = request_id;
  stream_message_version = version;
  remote_connection = some (record { handed = handed; closed = over });
}

module _ (b : Base64) (j : DialJson) (connects : Bool) (accepts : List Bytes → Bytes → Bool) where
  abbrev carry_on : (Dial → Option Dial) → Outcome DialError Bytes × Dial → Option Dial
  carry_on next (panic, d) = none
  carry_on next (ok bytes, d) = next d
  carry_on next (err e, d) = next d

  -- The agent receives actions one after the other; `none` is a panic.
  unfoldable pub receive_all : List ActionWrapper → Dial → Option Dial
  receive_all [] d = some d
  receive_all (a ∷ rest) d =
      carry_on (receive_all rest) (receive b j connects accepts a.action a.action_payload d)

-- Before a connection was dialled the agent panics on an action exactly if it is an input whose payload
-- and whose data decode.
pub receive_panics_iff :
    (b : Base64) (j : DialJson) (connects : Bool) (accepts : List Bytes → Bytes → Bool)
    (action : String) (payload : Bytes) (d : Dial)
    → d.remote_connection ≡ none
    → ((receive b j connects accepts action payload d).0 ≡ panic)
      ↔ ((action ≡ dial_input) × ((j.unmarshal_input payload >>= λ p. b.decode p.data_text) ≢ none))
unfolding receive input_connection write_remote dial_connection
receive_panics_iff b j connects accepts action payload d h = (
  λ e. (
    ground (arith, eq_iff action dial_start, eq_iff action dial_input, eq_iff action dial_stop),
    ground (arith, eq_iff action dial_start, eq_iff action dial_input, eq_iff action dial_stop),
  ),
  λ e. rw e.0 (ground (arith, e.1, h)),
)
