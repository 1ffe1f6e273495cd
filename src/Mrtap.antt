-- ===== src/Mrtap.antt =====
-- The Multi-Root Zero-Trust Access Protocol: its messages, the two ends, and a session of both.
pub mod Types
pub mod Externals
pub mod Keypair
pub mod Message
pub mod BzCert
pub mod Agent
pub mod PipelineMap
pub mod Daemon
pub mod Session
pub mod Sample
mod Tests
