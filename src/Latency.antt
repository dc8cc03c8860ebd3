-- ===== src/Latency.antt =====
-- src/latency: the reply cache, and the window of latencies.
pub mod Cache
pub mod Spans
