-- ===== src/Gossip.antt =====
-- internal/gossip: signed heartbeats between peers that the operators have listed.
pub mod Packet
pub mod Peers
pub mod Node
pub mod PacketLaws
pub mod Replay
pub mod Watch
pub mod Silence
mod Samples
