-- ===== src/Judge.antt =====
-- The judge worker (backend/judge-worker): its circuit breakers, queues and judging.
pub mod CircuitBreaker
pub mod Queue
pub mod Processor
pub mod Worker
