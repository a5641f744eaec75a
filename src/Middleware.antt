-- ===== src/Middleware.antt =====
-- src/common/middleware: what every request passes before it is routed.
pub mod Csrf
pub mod RequestId
