-- ===== src/Ingest.antt =====
-- src/ingest: what a line of chat is, and whether it becomes a draft.
pub mod Classify
pub mod Bucket
pub mod Thread
