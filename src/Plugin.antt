-- ===== src/Plugin.antt =====
-- bctl/daemon/plugin and bctl/agent/plugin: the actions that a data channel carries.
mod InOrder
mod Stream
mod Dial
mod WebDial
mod Shell
pub mod Codec
mod Tests
mod WebTests
mod ShellTests
