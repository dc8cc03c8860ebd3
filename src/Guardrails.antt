-- ===== src/Guardrails.antt =====
-- src/guardrails: the guards, and the chain that runs every one of them over a draft.
pub mod Input
pub mod Guards
pub mod Chain
