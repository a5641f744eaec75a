-- ===== src/Identity.antt =====
-- src/modules/identity: the registration of agents.
pub mod Claim
pub mod Service
