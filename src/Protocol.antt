-- ===== src/Protocol.antt =====
-- src/modules/protocol: A2A requests and the store of nonces that guards against their replay.
pub mod NonceStore
pub mod Service
