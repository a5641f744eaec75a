-- ===== src/Observability.antt =====
-- src/observability: what the services count about themselves and about requests, and the state of the
-- domain.
pub mod BusinessMetrics
pub mod DomainGauges
pub mod HttpMetrics
pub mod Tracing
