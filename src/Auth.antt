-- ===== src/Auth.antt =====
-- src/common/auth: the tokens of users, the keys of services, and the guards of a request.
pub mod RefreshToken
pub mod ApiKeys
pub mod Guards
pub mod Passwords
