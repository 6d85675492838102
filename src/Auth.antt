-- ===== src/Auth.antt =====
-- internal/auth: the relay's verifier of credentials.
pub mod Verifier
pub mod Decisions
pub mod Sessions
mod Examples
