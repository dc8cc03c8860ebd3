-- ===== src/Actions.antt =====
-- src/actions: what a copilot may write to a listing, and how the write is made.
pub mod Port
pub mod Mock
pub mod Preflight
pub mod Store
pub mod Executor
pub mod Audit
pub mod Proposer
