-- ===== src/Protocol.antt =====
-- lib/protocol: the consensus constants and functions.
pub mod Consensus
