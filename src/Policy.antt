-- ===== src/Policy.antt =====
-- src/modules/policy: the access policies of an agent, their evaluation, and the service that
-- applies them to a request.
pub mod Wildcard
pub mod Evaluator
pub mod Service
pub mod Records
