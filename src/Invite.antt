-- ===== src/Invite.antt =====
-- internal/invite: invitations.
pub mod Url
pub mod File
pub mod Exchange
mod Tests
