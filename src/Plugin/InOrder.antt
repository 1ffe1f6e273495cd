-- ===== src/Plugin/InOrder.antt =====
-- The loop by which the daemon's db and web actions put stream messages in order: a map from sequence
-- numbers to messages, the number that comes next, and a handler that is run on each message in turn
-- (bctl/daemon/plugin/db/actions/dial/dial.go, bctl/daemon/plugin/web/actions/webdial/webdial.go).
-- The handlers differ, and are the parameter `step`: the new state, and whether the loop goes on.
mod Lookup
mod Loop
mod Progress
mod Complete
unfoldable pub use Lookup.*
unfoldable pub use Loop.*
unfoldable pub use Complete.*
