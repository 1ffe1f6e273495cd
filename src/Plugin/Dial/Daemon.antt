-- ===== src/Plugin/Dial/Daemon.antt =====
-- bctl/daemon/plugin/db/actions/dial/dial.go: the daemon's end, which streams what it reads from a local
-- connection as MrTAP messages, and writes the agent's stream messages to it in order.
use bzero.Shared.{
  ℕ, suc, Bool, true, false, Option, none, some, String, List, [], ◌∷◌, ◌++◌, if◌then◌else◌,
}
use bzero.Mrtap.Types.{Bytes}
use bzero.Plugin.Stream.{
  StreamType, StreamMessage, Base64, number, db_stream, db_stream_end, stream,
}
use bzero.Plugin.InOrder.{Reorder, begin, arrive_all}
use bzero.Plugin.Dial.{DialJson, dial_start, dial_input, dial_stop}

-- Whether the tomb is alive, and what was handed to the local connection's `Write`.
pub record Local : Type 0 where
  pub alive : Bool
  pub handed : List Bytes

-- The connection when `Start` is called.
abbrev pub fresh : Local
fresh = record { alive = true; handed = [] }

-- What a read of the local connection returns: bytes, an error (io.EOF among them), or anything at all
-- when the tomb is not alive.
pub data LocalRead : Type 0 where
  got : Bytes → LocalRead
  failed dead : LocalRead

pub record ActionWrapper : Type 0 where
  pub action : String
  pub action_payload : Bytes

-- `smsg.CurrentSchema`
abbrev pub current_schema : String
current_schema = "202204"

module _ (b : Base64) where
  -- `accepts` is whether a write succeeds, after what was handed to the connection before.
  module _ (accepts : List Bytes → Bytes → Bool) where
    unfoldable pub write_local : Option Bytes → Local → Local
    write_local none l = l
    write_local (some bytes) l =
        let after = record l { handed = l.handed ++ bytes ∷ [] } in
        if accepts l.handed bytes then after else record after { alive = false }

    -- The body of the inner loop, up to the deletion: the type of the message, then its content.
    unfoldable pub process_as : StreamType → StreamMessage → Local → Local × Bool
    process_as db_stream_end m l = (l, false)
    process_as db_stream m l = (write_local (b.decode m.content) l, m.more)
    process_as stream m l = (write_local (b.decode m.content) l, m.more)
    process_as _ m l = (l, true)

    unfoldable pub process : StreamMessage → Local → Local × Bool
    process m l = process_as m.stream_type m l

    -- The goroutine that `Start` starts, on the stream messages that come.
    unfoldable pub receive_streams : List StreamMessage → Reorder StreamMessage Local
    receive_streams ms = arrive_all number (λ l. l.alive) process ms (begin fresh)

  module _ (j : DialJson) (request_id : String) where
    -- The goroutine that reads from the local connection.
    unfoldable pub read_local : ℕ → List LocalRead → List ActionWrapper
    read_local n [] = []
    read_local n (dead ∷ reads) = []
    read_local n (failed ∷ reads) =
        record {
          action = dial_stop;
          action_payload =
              j.marshal_start (record { request_id = request_id; stream_message_version = "" });
        }
        ∷ []
    read_local n (got [] ∷ reads) = read_local n reads
    read_local n (got (x ∷ xs) ∷ reads) =
        record {
          action = dial_input;
          action_payload = j.marshal_input (record {
            request_id = request_id;
            sequence_number = n;
            data_text = b.encode (x ∷ xs);
          });
        }
        ∷ read_local (suc n) reads

    -- What `Start` sends to the agent.
    unfoldable pub start_actions : List LocalRead → List ActionWrapper
    start_actions reads =
        record {
          action = dial_start;
          action_payload =
              j.marshal_start
                (record { request_id = request_id; stream_message_version = current_schema });
        }
        ∷ read_local 0 reads
