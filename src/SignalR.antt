-- ===== src/SignalR.antt =====
-- bzerolib/connection/messenger/signalr: SignalR over a websocket. `InvocationTracker` holds the messages
-- that the server has not answered yet, `unwrap` takes the server's messages apart, and `send` sends one.
pub mod Tracker
pub mod Frames
mod Tests
use bzero.Shared.{
  ℕ, suc, ◌≡◌, Bool, true, false, Option, none, some, String, List, [], ◌∷◌, ◌++◌, ◌==◌, leb,
  length, if◌then◌else◌, str_eq, Outcome, ok, err, panic,
}
use bzero.Mrtap.Types.{Bytes}
use bzero.Channel.Types.{AgentMessage}

pub record SignalrMessage : Type 0 where
  pub message_type : ℕ
  pub target : String
  pub arguments : List Bytes
  pub invocation_id : String

pub record ResultMessage : Type 0 where
  pub error_message : Option String
  pub error : Bool

-- The fields that are pointers may be nil.
pub record CompletionMessage : Type 0 where
  pub invocation_id : Option String
  pub completion_result : Option ResultMessage
  pub error : Option String

-- The tracked messages by their id, and the counter of ids.
pub record InvocationTracker : Type 0 where
  pub tracked_messages : List (String × SignalrMessage)
  pub counter : ℕ

-- The tracker, the messages for whoever listens, and the server's reason once it has closed the connection.
pub record Signalr : Type 0 where
  pub invocator : InvocationTracker
  pub inbound : List SignalrMessage
  pub killed : Option String

-- `SignalRMessageType`
abbrev pub invocation : ℕ
invocation = 1

abbrev pub completion : ℕ
completion = 3

abbrev pub ping : ℕ
ping = 6

abbrev pub close : ℕ
close = 7

-- `TerminatorByte`
abbrev pub terminator_byte : ℕ
terminator_byte = 30

pub data SignalrError : Type 0 where
  malformed malformed_close malformed_completion malformed_invocation : SignalrError
  no_invocation_id not_sent : SignalrError
  server_error : String → String → SignalrError
  no_target no_agent_message no_message send_failed : SignalrError

-- encoding/json at the messages, and `fmt.Sprint` of a number. The arguments of a message are raw JSON: one
-- that is not JSON makes the marshalling fail, and `compact` is how one that is JSON is written.
pub record Json : Type 0 where
  pub print : ℕ → String
  pub unmarshal_type : Bytes → Option ℕ
  pub unmarshal_close : Bytes → Option String
  pub unmarshal_completion : Bytes → Option CompletionMessage
  pub unmarshal_message : Bytes → Option SignalrMessage
  pub marshal_message : SignalrMessage → Option Bytes
  pub compact : Bytes → Bytes
  pub marshal_agent_message : AgentMessage → Option Bytes

-- The reads and writes of the Go map.
unfoldable pub lookup : String → List (String × SignalrMessage) → Option SignalrMessage
lookup id [] = none
lookup id ((k, m) ∷ ms) = if str_eq k id then some m else lookup id ms

unfoldable pub delete : String → List (String × SignalrMessage) → List (String × SignalrMessage)
delete id [] = []
delete id ((k, m) ∷ ms) = let rest = delete id ms in if str_eq k id then rest else (k, m) ∷ rest

unfoldable pub new_tracker : InvocationTracker
new_tracker = record { tracked_messages = []; counter = 0 }

unfoldable pub is_empty : InvocationTracker → Bool
is_empty t = length t.tracked_messages == 0

-- `Match`
unfoldable pub take_tracked : String → InvocationTracker → InvocationTracker × Option SignalrMessage
take_tracked id t = elim (lookup id t.tracked_messages) [
  | none ↦ (t, none)
  | some m ↦ (record t { tracked_messages = delete id t.tracked_messages }, some m)
]

-- `Kill` of a tomb keeps its first reason.
abbrev first_reason : Option String → String → Option String
first_reason none reason = some reason
first_reason (some old) reason = some old

-- `bytes.Split` at the terminator.
unfoldable pub split : Bytes → List Bytes
split [] = [] ∷ []
split (x ∷ xs) =
    let rest = split xs in
    if x == terminator_byte
    then [] ∷ rest
    else elim rest [ [] ↦ (x ∷ []) ∷ [] | p ∷ ps ↦ (x ∷ p) ∷ ps ]

module _ (j : Json) where
  unfoldable pub track : SignalrMessage → InvocationTracker → InvocationTracker × SignalrMessage
  track m t =
      let id = j.print t.counter in
      let tracked = record m { invocation_id = id } in
      (
        record {
          tracked_messages = (id, tracked) ∷ delete id t.tracked_messages;
          counter = suc t.counter;
        },
        tracked,
      )

  unfoldable pub process_close_message : Bytes → Signalr → Outcome SignalrError Unit × Signalr
  process_close_message bytes s = elim (j.unmarshal_close bytes) [
    | none ↦ (err malformed_close, s)
    | some reason ↦ (ok tt, record s { killed = first_reason s.killed reason })
  ]

  -- An error that the server reports; the text of its result's error may be nil, and is read.
  abbrev pub reported : SignalrMessage → CompletionMessage → Outcome SignalrError Unit
  reported m c = elim c.error [
    | some text ↦ err (server_error m.target text)
    | none ↦ elim c.completion_result [
      | none ↦ ok tt
      | some result ↦
          if result.error
          then elim result.error_message [
            | none ↦ panic
            | some text ↦ err (server_error m.target text)
          ]
          else ok tt
    ]
  ]

  abbrev answered :
      CompletionMessage
      → Signalr
      → InvocationTracker × Option SignalrMessage
      → Outcome SignalrError Unit × Signalr
  answered c s (t, none) = (err not_sent, record s { invocator = t })
  answered c s (t, some m) = (reported m c, record s { invocator = t })

  unfoldable pub process_completion_message : Bytes → Signalr → Outcome SignalrError Unit × Signalr
  process_completion_message bytes s = elim (j.unmarshal_completion bytes) [
    | none ↦ (err malformed_completion, s)
    | some c ↦ elim c.invocation_id [
      | none ↦ (err no_invocation_id, s)
      | some id ↦ answered c s (take_tracked id s.invocator)
    ]
  ]

  unfoldable pub process_invocation : Bytes → Signalr → Outcome SignalrError Unit × Signalr
  process_invocation bytes s = elim (j.unmarshal_message bytes) [
    | none ↦ (err malformed_invocation, s)
    | some m ↦ (ok tt, record s { inbound = s.inbound ++ m ∷ [] })
  ]

  -- One of the messages that came together.
  unfoldable pub process_typed : ℕ → Bytes → Signalr → Outcome SignalrError Unit × Signalr
  process_typed t bytes s =
      if t == close
      then process_close_message bytes s
      else if t == completion
      then process_completion_message bytes s
      else if t == invocation
      then process_invocation bytes s
      else (ok tt, s)

  unfoldable pub process_one : Bytes → Signalr → Outcome SignalrError Unit × Signalr
  process_one bytes s = if leb (length bytes) 2 then (ok tt, s) else elim (j.unmarshal_type bytes) [
    | none ↦ (err malformed, s)
    | some t ↦ process_typed t bytes s
  ]

  abbrev go_on :
      (Signalr → Outcome SignalrError Unit × Signalr)
      → Outcome SignalrError Unit × Signalr
      → Outcome SignalrError Unit × Signalr
  go_on next (ok u, s) = next s
  go_on next (err e, s) = (err e, s)
  go_on next (panic, s) = (panic, s)

  -- The first message that cannot be processed stops the loop.
  unfoldable pub process_each : List Bytes → Signalr → Outcome SignalrError Unit × Signalr
  process_each [] s = (ok tt, s)
  process_each (bytes ∷ rest) s = go_on (process_each rest) (process_one bytes s)

  unfoldable pub unwrap : Bytes → Signalr → Outcome SignalrError Unit × Signalr
  unwrap raw s = process_each (split raw) s

  -- `Send`: `select` is the `targetSelectHandler`, `sends` whether the transport takes the bytes; with the
  -- bytes that were put in the queue.
  unfoldable pub send :
      (AgentMessage → Option String)
      → Bool
      → AgentMessage
      → Signalr
      → Outcome SignalrError Bytes × Signalr
  send select sends message s = elim (select message) [
    | none ↦ (err no_target, s)
    | some target ↦ elim (j.marshal_agent_message message) [
      | none ↦ (err no_agent_message, s)
      | some payload ↦
          let tracked =
            track
              (record {
                message_type = invocation;
                target = target;
                arguments = payload ∷ [];
                invocation_id = "";
              })
              s.invocator in
          elim (j.marshal_message tracked.1) [
            | none ↦ (err no_message, record s { invocator = tracked.0 })
            | some bytes ↦
                if sends
                then (ok (bytes ++ terminator_byte ∷ []), record s { invocator = tracked.0 })
                else (
                  err send_failed,
                  record s { invocator = (take_tracked (tracked.1).invocation_id tracked.0).0 },
                )
          ]
    ]
  ]
