-- ===== src/Gossip.antt =====
-- internal/gossip: the control plane that spreads the topology between nodes.
pub mod Message
pub mod Outside
pub mod Plane
pub mod Sample
