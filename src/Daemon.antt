-- ===== src/Daemon.antt =====
-- internal/daemon: what glues the parts together.
pub mod Paths
pub mod Invitations
pub mod Backoff
pub mod Loaded
pub mod Peers
pub mod Endpoints
pub mod Fsck
pub mod Running
pub mod Requests
pub mod Life
pub mod Init
mod Tests
