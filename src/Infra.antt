-- ===== src/Infra.antt =====
-- backend/infra: what the services build on.
pub mod Breaker
pub mod Retry
pub mod EventBus
pub mod Idempotency
mod Tests
