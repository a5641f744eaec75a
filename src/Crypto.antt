-- ===== src/Crypto.antt =====
-- src/common/crypto: the canonical form of a request, which is what its hash is taken of.
pub mod Canonical
