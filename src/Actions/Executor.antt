-- ===== src/Actions/Executor.antt =====
-- `ActionExecutor` of src/actions/executor.ts: propose, reject, approve and roll back, over any
-- marketplace. One operation runs at a time and at one clock reading. `Env` says which statements of
-- the database throw: the transaction, the writes of a row before and after it, the audit log. Reads
-- do not throw, and an operation that throws leaves what it had written.
pub mod State
pub mod Propose
pub mod Approve
pub mod Rollback
