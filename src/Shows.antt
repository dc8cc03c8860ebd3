-- ===== src/Shows.antt =====
-- src/shows: what a session comes to after a restart, and the figures with a name.
pub mod Resume
pub mod Metrics
