-- ===== src/Connection.antt =====
-- bctl/agent/controlchannel/dataconnection/connection.go: the agent's end of a connection to a daemon. It
-- opens and closes data channels at the daemon's word and hands each the messages that are for it, until it
-- is killed. What a goroutine of a channel does, the time that passes and `connect` are not modelled. A channel is a pointer: `channels`
-- holds those made so far, and the broker has their places in it.
pub mod Places
pub mod Served
pub mod Targets
pub mod Delivery
pub mod Failed
pub mod Shutdown
mod Tests
use bzero.Shared.{
  ℕ, zero, suc, ◌≡◌, Bool, true, false, Option, none, some, String, List, [], ◌∷◌, ◌++◌, length,
  str_eq, if◌then◌else◌, Outcome, ok, err, panic,
}
use bzero.Mrtap.Types.{Bytes}
use bzero.Mrtap.Externals.{Externals}
use bzero.Mrtap.Agent as Mrtap
use bzero.Mrtap.Agent.{AgentError, Config}
use bzero.Channel.Types.{
  AgentMessage, MessageType, mrtap, mrtap_legacy, stream, error, close_daemon_websocket,
  current_version,
}
use bzero.Channel.Wire.{Wire}
use bzero.Channel.Broker
use bzero.Channel.Broker.{Call, received, closed, Subscribers, BrokerError}
use bzero.Channel.Agent
use bzero.Channel.Agent.{ChannelError, DataChannel, Plugins}
use bzero.SignalR.{SignalrMessage}

pub record OpenDataChannelMessage : Type 0 where
  pub data_channel_id : String
  pub syn : Bytes

pub data ConnectionError : Type 0 where
  no_mrtap : AgentError → ConnectionError
  not_opened : ChannelError → ConnectionError
  no_channel : ConnectionError
  not_forwarded : BrokerError → ConnectionError

pub data CloseReason : Type 0 where
  malformed_reason : CloseReason
  by_daemon : String → CloseReason
  idle_for : ℕ → CloseReason

-- encoding/json at the arguments. Where its error is only logged, the value is what the decoding left in
-- a zero struct. The timeout is an int64 by its bits.
pub record Decoder : Type 0 where
  pub unmarshal_reason : Bytes → Option String
  pub unmarshal_idle_timeout : Bytes → Option ℕ
  pub unmarshal_open : Bytes → OpenDataChannelMessage
  pub unmarshal_close : Bytes → String
  pub unmarshal_agent_message : Bytes → AgentMessage
  pub marshal_reason : Option CloseReason → Bytes

-- `killed` is the tomb's reason, `dead` that the goroutine which the tomb waits for has returned, and
-- `stopped` that the loop `receive` has.
pub record DataConnection (V P : Type 0) : Type 0 where
  pub ready : Bool
  pub broker : Subscribers ℕ
  pub channels : List (DataChannel V P)
  pub send_queue : List AgentMessage
  pub idle_timeout : ℕ
  pub killed : Option CloseReason
  pub dead : Bool
  pub stopped : Bool

-- `targetSelectHandler`
unfoldable pub target_select_handler : AgentMessage → Option String
target_select_handler m = elim m.message_type [
  | close_daemon_websocket ↦ some "CloseDaemonWebsocketV1"
  | mrtap ↦ some "ResponseAgentToBastionV1"
  | mrtap_legacy ↦ some "ResponseAgentToBastionV1"
  | stream ↦ some "ResponseAgentToBastionV1"
  | error ↦ some "ResponseAgentToBastionV1"
  | _ ↦ none
]

-- What a pointer points at, and a change of it.
unfoldable pub get_elem? : {A : Type 0} → List A → ℕ → Option A
get_elem? [] n = none
get_elem? (c ∷ cs) zero = some c
get_elem? (c ∷ cs) (suc n) = get_elem? cs n

unfoldable pub change : {A : Type 0} → ℕ → (A → A) → List A → List A
change n f [] = []
change zero f (c ∷ cs) = f c ∷ cs
change (suc n) f (c ∷ cs) = c ∷ change n f cs

-- The first reason stays.
unfoldable pub kill : {V P : Type 0} → CloseReason → DataConnection V P → DataConnection V P
kill reason s = record s { killed = elim s.killed [ none ↦ some reason | some old ↦ some old ] }

unfoldable pub close : {V P : Type 0} → CloseReason → DataConnection V P → DataConnection V P
close reason s = elim s.killed [ none ↦ kill reason s | some old ↦ s ]

-- The idle timer runs out.
unfoldable pub time_out : {V P : Type 0} → DataConnection V P → DataConnection V P
time_out s = close (idle_for s.idle_timeout) s

-- The queue holds 50, and a send waits while it is full; that is not modelled.
unfoldable pub send : {V P : Type 0} → AgentMessage → DataConnection V P → DataConnection V P
send m s = record s { send_queue = s.send_queue ++ m ∷ [] }

-- An error is logged; `none` is a panic.
abbrev pub logged :
    {V P : Type 0}
    → DataConnection V P × Outcome ConnectionError (Unit {0})
    → Option (DataConnection V P)
logged (s, ok u) = some s
logged (s, err e) = some s
logged (s, panic) = none

-- The methods that read their first argument.
unfoldable pub has_argument : String → Bool
has_argument target =
    if str_eq target "CloseConnection"
    then true
    else if str_eq target "DaemonConnected"
    then true
    else if str_eq target "OpenDataChannel"
    then true
    else if str_eq target "CloseDataChannel"
    then true
    else str_eq target "RequestBastionToAgentV1"

-- A message of the hub, with the time and the random text that its handler reads.
pub record Arrival : Type 0 where
  pub now : ℕ
  pub random : String
  pub message : SignalrMessage

-- What the connection's two goroutines come to: a message or the idle timer's end in `receive`, the dying
-- branch, and the end of `receive`.
pub data Event : Type 0 where
  arrives : Arrival → Event
  idles dies stops : Event

module _ {V P : Type 0} (x : Externals V) (w : Wire ChannelError) (plugins : Plugins P)
    (j : Decoder) where
  -- A call of the broker on a channel.
  unfoldable pub make : Call ℕ → List (DataChannel V P) → List (DataChannel V P)
  make (received h m) cs = change h (λ c. Agent.receive x w plugins c m) cs
  make (closed h reason) cs = change h (λ c. record c { is_alive = false }) cs

  unfoldable pub make_all : List (Call ℕ) → List (DataChannel V P) → List (DataChannel V P)
  make_all [] cs = cs
  make_all (call ∷ calls) cs = make_all calls (make call cs)

  -- The channel is subscribed whatever `New` returns; what a failed one has queued is flushed.
  unfoldable pub opened :
      String
      → DataChannel V P × Outcome ChannelError (Unit {0})
      → DataConnection V P
      → DataConnection V P × Outcome ConnectionError (Unit {0})
  opened id (c, result) s =
      let broker' = Broker.subscribe s.broker id (some (length s.channels)) in
      elim result [
        | ok u ↦ (record s { broker = broker'; channels = s.channels ++ c ∷ [] }, ok tt)
        | err e ↦ (
          record s {
            broker = broker';
            channels = s.channels ++ (record c { output_chan = [] }) ∷ [];
            send_queue = s.send_queue ++ c.output_chan;
          },
          err (not_opened e),
        )
        | panic ↦ (s, panic)
      ]

  unfoldable pub open_data_channel :
      Config
      → ℕ
      → String
      → OpenDataChannelMessage
      → DataConnection V P
      → DataConnection V P × Outcome ConnectionError (Unit {0})
  open_data_channel config now random m s = elim (Mrtap.new x config) [
    | ok mt ↦
        opened m.data_channel_id (Agent.new x w plugins m.data_channel_id mt now random m.syn) s
    | err e ↦ (s, err (no_mrtap e))
    | panic ↦ (s, panic)
  ]

  unfoldable pub close_data_channel :
      String → DataConnection V P → DataConnection V P × Outcome ConnectionError (Unit {0})
  close_data_channel id s =
      let (broker', calls, found) =
        Broker.close_channel s.broker id
          "received close data channel control message from daemon" in
      let s' = record s { broker = broker'; channels = make_all calls s.channels } in
      elim found [
        | ok b ↦ elim b [ true ↦ (s', ok tt) | false ↦ (s', err no_channel) ]
        | err e ↦ (s', err (not_forwarded e))
        | panic ↦ (s', panic)
      ]

  unfoldable pub forward :
      AgentMessage → DataConnection V P → DataConnection V P × Outcome ConnectionError (Unit {0})
  forward m s =
      let (calls, result) = Broker.direct_message s.broker m.channel_id m in
      let s' = record s { channels = make_all calls s.channels } in
      elim result [ ok u ↦ (s', ok tt) | err e ↦ (s', err (not_forwarded e)) | panic ↦ (s', panic) ]

  -- A message with an argument; one that does not read it does nothing else either.
  unfoldable pub handle :
      Config → ℕ → String → String → Bytes → DataConnection V P → Option (DataConnection V P)
  handle config now random target bytes s =
      if str_eq target "CloseConnection"
      then elim (j.unmarshal_reason bytes) [
        | none ↦ some (kill malformed_reason s)
        | some reason ↦ some (kill (by_daemon reason) s)
      ]
      else if str_eq target "DaemonConnected"
      then elim (j.unmarshal_idle_timeout bytes) [
        | none ↦ some s
        | some timeout ↦ some (record s { idle_timeout = timeout })
      ]
      else if str_eq target "OpenDataChannel"
      then logged (open_data_channel config now random (j.unmarshal_open bytes) s)
      else if str_eq target "CloseDataChannel"
      then logged (close_data_channel (j.unmarshal_close bytes) s)
      else if str_eq target "RequestBastionToAgentV1"
      then logged (forward (j.unmarshal_agent_message bytes) s)
      else some s

  -- The switch of `receive`; it indexes the arguments before it looks at how many there are.
  unfoldable pub receive :
      Config → ℕ → String → SignalrMessage → DataConnection V P → Option (DataConnection V P)
  receive config now random m s = elim m.arguments [
    | [] ↦ if has_argument m.target then none else some s
    | bytes ∷ _ ↦ handle config now random m.target bytes s
  ]

  -- The branch of a dying connection: the channels are closed, the daemon is told, and what is queued
  -- goes out, beside the state.
  unfoldable pub die : DataConnection V P → Option (List AgentMessage × DataConnection V P)
  die s =
      let (broker', calls, result) = Broker.close s.broker "connection closed" in
      let s' =
        send
          (record {
            channel_id = "-1";
            message_type = close_daemon_websocket;
            schema_version = current_version;
            message_payload = j.marshal_reason s.killed;
          })
          (record s {
            ready = false;
            broker = broker';
            channels = make_all calls s.channels;
            dead = true;
          }) in
      elim result [ panic ↦ none | _ ↦ some (s'.send_queue, record s' { send_queue = [] }) ]

  -- The loop takes a message or the timer's end, until it has stopped, which it may once the connection is
  -- dead; a killed connection comes to its dying branch once, whenever that is.
  unfoldable pub step : Config → Event → DataConnection V P → Option (DataConnection V P)
  step config (arrives a) s =
      if s.stopped then some s else receive config a.now a.random a.message s
  step config idles s = if s.stopped then some s else some (time_out s)
  step config dies s = if s.dead then some s else elim s.killed [
    | none ↦ some s
    | some reason ↦ elim (die s) [ none ↦ none | some (sent, s') ↦ some s' ]
  ]
  step config stops s = some (if s.dead then record s { stopped = true } else s)

  -- Up to a panic.
  unfoldable pub run : Config → List Event → DataConnection V P → Option (DataConnection V P)
  run config [] s = some s
  run config (e ∷ es) s = elim (step config e s) [ none ↦ none | some s' ↦ run config es s' ]
