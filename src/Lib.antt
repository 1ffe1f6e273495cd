-- ===== src/Lib.antt =====
-- The core of BastionZero's agent and daemon: the protocol by which they talk (MrTAP), the data
-- channels that carry it, the broker of a connection, the actions by which databases and web servers
-- are reached through it, the transport of messages by SignalR, the key shards of an agent, and the ring buffer of a shell.
--
-- The parts, and how they interact. A user's daemon and a target's agent are joined by a connection, on
-- which each side has one data channel per session. A channel takes messages from the connection's
-- broker, has the protocol validate them, hands what they carry to a plugin, and sends the plugin's
-- output as messages of the protocol. The protocol is a chain of hashes: the agent answers a Syn, which
-- carries a certificate, with a SynAck, and every Data message points to the hash of the ack that the
-- daemon expects before it, which it predicts in order to have several messages in flight.
--
-- Shared: names of the libraries and the tests, lists and lemmas that the others share; `Outcome` is a
--   result, an error, or a Go panic.
-- RingBuffer: bzerolib/ringbuffer/ringbuffer.go. `new`, `write`, `read` and `read_all` are `New`,
--   `Write`, `Read` and `ReadAll`; a slice out of range is `none`. Copy, Window, Write, Read and Replay
--   hold the lemmas and the theorems.
-- Mrtap.Types, Mrtap.Message, Mrtap.Message.Json: bzerolib/mrtap/message. The payloads are records and
--   the `interface{}` that holds one is a data type.
-- Mrtap.Keypair: bzerolib/keypair.
-- Mrtap.BzCert: bzerolib/mrtap/bzcert and `ExtractJwksUrlPattern` of bzerolib/mrtap/util.
-- Mrtap.Agent: bctl/agent/mrtap/mrtap.go. `validate` and `build_ack` are `Validate` and `BuildAck`.
-- Mrtap.Daemon: bctl/daemon/mrtap/mrtap.go. `inbox`, `pipeline` and `build_syn` are the methods of those
--   names; Mrtap.Daemon.Recovery has `Recover`, `resend` and `Validate`.
-- Mrtap.PipelineMap: the ordered map of the messages in flight, an interface with its laws.
-- Mrtap.Session: both ends together.
-- Mrtap.Sample: a small world in which the assumptions hold, for the tests.
-- Channel.Types: bzerolib/connection/agentmessage and bzerolib/error.
-- Channel.Broker: bzerolib/connection/broker/broker.go.
-- Channel.Agent: bctl/agent/datachannel/datachannel.go.
-- Channel.Daemon: bctl/daemon/datachannel/datachannel.go, with the handshake's loop in Handshake and the
--   wait for the last messages in Outbox.
-- Plugin.Stream: bzerolib/stream/message/stream.go.
-- Plugin.InOrder: the loop by which the daemon's actions put an agent's stream messages in order, a map
--   from sequence numbers to messages. `arrive` takes one message in, `drain` is the loop inside; `deliver`
--   is what the loop stands for, the handler over the messages as they were sent.
-- Plugin.Dial: bctl/daemon and bctl/agent, plugin/db/actions/dial/dial.go. A goroutine that reads from a
--   connection is a function of what its reads return: `pump` is the agent's, `read_local` the daemon's;
--   `receive` is the agent's `Receive`, `receive_streams` the daemon's loop over stream messages.
-- Plugin.WebDial: bctl/daemon and bctl/agent, plugin/web/actions/webdial/webdial.go, in the same way, with
--   `BuildEndpoint` of bzerolib/bzhttp/bzhttp.go.
-- Plugin.Shell: bctl/daemon and bctl/agent, plugin/shell/actions/defaultshell/defaultshell.go. The agent's
--   goroutine `writePump` and the calls of `Receive` are events of one state: `pump_starts`, `pump_reads`,
--   `pump_stops` and `pump_crashes` are the rounds of the loop, and `run` takes them in any order.
-- Plugin.Codec: functions in the place of encoding/json, for the tests.
-- SignalR: bzerolib/connection/messenger/signalr, by which a connection's messages come and go. `track` and
--   `take_tracked` are `Track` and `Match`, `unwrap` and `send` the methods of those names.
-- Connection: bctl/agent/controlchannel/dataconnection/connection.go, the agent's end of a connection, over
--   Channel.Broker and Channel.Agent. `receive` is the switch of the loop `receive`, `die` the branch of
--   a dying connection, and `run` takes the events of both in any order; a pointer to a data channel is its place in `channels`.
-- Channel.Sample: a small wire, a plugin and an open data channel, for the tests.
-- KeyShards: bctl/agent/config/keyshardconfig. `add_key`, `add_target`, `last_key`, `clear` and
--   `delete_target` are the methods of those names; `holders` is the list of the keys for a target, which
--   is what the config stands for.
--
-- How the code is modelled. A method is a function from the state to the state and its outcome, and
-- keeps what it has written where it fails. A nil pointer that is read, a failed assertion on a type and
-- a slice out of range are panics. Time and random texts are arguments. Locks are held from end to end of
-- a method, so methods run one after another, in any order. A call that waits has no result yet. The loops
-- over messages in flight and over events are recursion on their lists, and the loop of the handshake has
-- its bound of three retries in the code. Three loops run on fuel: the loop that puts messages in order, on
-- the number of messages that wait, of which each round takes one away; the removal of a target, on
-- the number of targets in all entries, of which each round but the last removes one; and the reads of
-- a form, on its length.
--
-- What is a parameter. Base64, JSON, SHA-3, ed25519, semantic versions, OpenID Connect, JSON web tokens,
-- URLs and regular expressions are fields of `Externals`, `Json`, `Wire`, `Base64`, `DialJson`, `WebJson`,
-- `ShellJson`, SignalR's `Json`, `Decoder`, `Http` and `FormParser`;
-- what comes of a TCP dial, of a write to a connection, of an http request, and of a fetch and a save of
-- the config's client are arguments. What a theorem needs of them
-- is a hypothesis of it: that a digest and a signature have a text that is not empty (`Encodings`), that
-- a key pair verifies what it signs (`IsKeyPair`), that no two messages in flight have one hash
-- (`NoCollision`), that JSON is read back (`ReadsBack`, but for fields that are not exported,
-- `IsDialJson`, `IsWebJson`, `IsShellJson`,
-- SignalR's `IsJson`) and so is base64 (`IsBase64`), that different numbers
-- print differently (`IsPrint`).
--
-- What is not modelled. The plugins around the actions, which the channels take as parameters, and the
-- ssh, kube and websocket actions; the daemon's refresh of its
-- certificate, an effect of the record `Credential`; goroutines, timers and the closing of channels; the
-- control channel, the servers, the transport and the registration, which are I/O around the parts above.
pub mod Shared
pub mod RingBuffer
pub mod Mrtap
pub mod Channel
pub mod Plugin
pub mod KeyShards
pub mod SignalR
pub mod Connection
