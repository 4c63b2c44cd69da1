-- ===== src/Stripe.antt =====
-- The Stripe webhook: its JSON events, their translation into domain events, and the endpoint.
pub mod Json
pub mod Router
pub mod Webhook
mod Tests
