-- ===== src/Relay.antt =====
-- internal/relay: the group ring, which holds what a track's publisher sent last, its egress with the
-- drops that a subscriber is told of, the routes of a path, and the credentials and the lease of a
-- session.
pub mod Cache
pub mod Ring
pub mod Roots
pub mod Held
pub mod Admission
pub mod Drops
pub mod Egress
pub mod Routes
pub mod Lease
mod Examples
