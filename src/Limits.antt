-- ===== src/Limits.antt =====
-- What bounds the load: the rate limiter and the gate of src/api/rateLimit.ts, and the browser slots
-- of src/surfaces/browserBudget.ts, and the spending cap of src/llm/budget.ts.
pub mod Rate
pub mod Gate
pub mod Browser
pub mod Budget
