-- ===== src/Autonomy.antt =====
-- src/autonomy: the ladder's decisions, and the criteria that unlock its rungs.
pub mod Ladder
pub mod Promotion
