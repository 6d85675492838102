-- ===== src/Token.antt =====
-- token: what a qumo capability token says, and when a relay accepts it.
pub mod Path
pub mod Grant
pub mod Claims
pub mod Samples
mod Examples
