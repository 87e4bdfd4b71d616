-- ===== src/Services.antt =====
-- The small services round the controller, a module each.
pub mod Recovery
pub mod Negotiation
pub mod Broker
pub mod Evaluation
