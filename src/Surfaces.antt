-- ===== src/Surfaces.antt =====
-- src/surfaces: the rooms that a seller's copilot watches.
pub mod Rooms
pub mod FollowUps
pub mod Reddit
