-- ===== src/Channel.antt =====
-- The connection's channels: the messages of bzerolib/connection/agentmessage, the broker that hands
-- them out, and the data channels at both ends.
pub mod Types
pub mod Broker
pub mod Wire
pub mod Agent
pub mod Daemon
pub mod Sample
mod Tests
