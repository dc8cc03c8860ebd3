-- ===== src/Pipeline.antt =====
-- src/pipeline/pipeline.ts: a line of chat from its arrival to the reply that leaves the queue.
pub mod State
pub mod Fanout
pub mod Intake
pub mod Finish
pub mod Send
pub mod Evict
pub mod Draft
pub mod Accounts
pub mod Rail
