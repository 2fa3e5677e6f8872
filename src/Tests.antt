-- ===== src/Tests.antt =====
-- Runs of the definitions on concrete inputs, and the theorems at inputs that meet their hypotheses.
mod Roles
mod Problems
mod Gateway
mod Breaker
mod Queue
mod Processor
mod Imex
mod Migration
mod Worker
mod Recovery
mod GatewayClient
mod Submissions
mod WebSocket
mod Control
mod Mapper
