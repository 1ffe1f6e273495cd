-- ===== src/Plugin/Dial/Agent.antt =====
-- bctl/agent/plugin/db/actions/dial/dial.go: the agent's end, which forwards to a TCP connection and
-- streams what it reads from there. The goroutine that reads is `pump`, over what its reads return.
use bzero.Shared.{
  ℕ, suc, Bool, true, false, Option, none, some, String, List, [], ◌∷◌, ◌++◌, if◌then◌else◌, str_eq,
  Outcome, ok, err, panic,
}
use bzero.Mrtap.Types.{Bytes}
use bzero.Plugin.Stream.{
  StreamType, StreamMessage, Base64, is_legacy, db_stream, db_stream_end, stream, error,
}
use bzero.Plugin.Dial.{
  DialActionPayload, DialInputActionPayload, DialJson, dial_start, dial_input, dial_stop,
}

-- The connection that was dialled: what was handed to its `Write`, and whether it was closed.
pub record Remote : Type 0 where
  pub handed : List Bytes
  pub closed : Bool

-- A connection that is nil is `none`.
pub record Dial : Type 0 where
  pub alive : Bool
  pub request_id : String
  pub stream_message_version : String
  pub remote_connection : Option Remote

-- `errors` of `Receive`
pub data DialError : Type 0 where
  malformed_start malformed_input bad_base64 unhandled_action : DialError
  dial_failed : DialError

-- What a read of the connection returns: the bytes, alone or with io.EOF or with another error, whose
-- text is given; `dead` is a read that returns when the tomb is not alive.
pub data Read : Type 0 where
  got eof failed : Bytes → Read
  dead : Read

abbrev close_remote : Option Remote → Option Remote
close_remote none = none
close_remote (some r) = some (record r { closed = true })

unfoldable pub kill : Dial → Dial
kill d =
    if d.alive
    then record d { alive = false; remote_connection = close_remote d.remote_connection }
    else d

module _ (b : Base64) where
  unfoldable pub send_stream_message : String → ℕ → StreamType → Bool → Bytes → StreamMessage
  send_stream_message version n t more bytes = record {
    request_id = "";
    schema_version = version;
    sequence_number = n;
    action = "dial";
    stream_type = t;
    more = more;
    log_id = "";
    content = b.encode bytes;
  }

  -- The loop of the goroutine that `start` starts.
  unfoldable pub pump : String → ℕ → List Read → List StreamMessage
  pump version n [] = []
  pump version n (dead ∷ reads) = []
  pump version n (eof bytes ∷ reads) =
      send_stream_message version n (if is_legacy version then db_stream_end else stream) false
        bytes
      ∷ []
  pump version n (failed text ∷ reads) = send_stream_message version n error false text ∷ []
  pump version n (got bytes ∷ reads) =
      send_stream_message version n (if is_legacy version then db_stream else stream) true bytes
      ∷ pump version (suc n) reads

  -- `connects` is whether `net.DialTimeout` yields a connection, `accepts` whether a write succeeds,
  -- after what was handed to the connection before.
  module _ (j : DialJson) (connects : Bool) (accepts : List Bytes → Bytes → Bool) where
    unfoldable pub dial_connection : Dial → DialActionPayload → Outcome DialError Bytes × Dial
    dial_connection d p =
        let named = record d {
          request_id = p.request_id;
          stream_message_version = p.stream_message_version;
        } in
        if connects
        then (
          ok [],
          record named { remote_connection = some (record { handed = []; closed = false }) },
        )
        else (err dial_failed, named)

    -- A write to a connection that is nil panics. A write that fails kills the action, whatever was
    -- written of it.
    unfoldable pub write_remote : Dial → Bytes → Option Remote → Outcome DialError Bytes × Dial
    write_remote d bytes none = (panic, d)
    write_remote d bytes (some r) =
        let after = record d {
          remote_connection = some (record r { handed = r.handed ++ bytes ∷ [] });
        } in
        if r.closed
        then (ok [], kill d)
        else if accepts r.handed bytes
        then (ok [], after)
        else (ok [], kill after)

    unfoldable pub input_connection : Dial → DialInputActionPayload → Outcome DialError Bytes × Dial
    input_connection d p = elim (b.decode p.data_text) [
      | none ↦ (err bad_base64, d)
      | some bytes ↦ write_remote d bytes d.remote_connection
    ]

    unfoldable pub receive : String → Bytes → Dial → Outcome DialError Bytes × Dial
    receive action payload d =
        if str_eq action dial_start
        then elim (j.unmarshal_start payload) [
          | none ↦ (err malformed_start, d)
          | some p ↦ dial_connection d p
        ]
        else if str_eq action dial_input
        then elim (j.unmarshal_input payload) [
          | none ↦ (err malformed_input, d)
          | some p ↦ input_connection d p
        ]
        else if str_eq action dial_stop
        then (ok payload, kill d)
        else (err unhandled_action, d)
