-- ===== src/Chain.antt =====
-- src/blockchain: the nonces of transactions, the waiting for their receipts, and the addresses of the
-- contracts on the active network.
pub mod NonceManager
pub mod Receipts
pub mod Networks
