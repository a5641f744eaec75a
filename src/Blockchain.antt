-- ===== src/Blockchain.antt =====
-- src/common/blockchain: the calls of contracts, and the signatures.
pub mod Retry
pub mod Service
