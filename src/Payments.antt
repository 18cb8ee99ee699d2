-- ===== src/Payments.antt =====
-- The module payments (services/api/internal/modules/payments): the processing of a gateway's
-- callbacks, from the webhook receiver and from the reconciliation.
pub mod Queries
pub mod Processor
pub mod Keeps
pub mod Promises
pub mod Replay
pub mod Settling
pub mod Issuable
pub mod Settlement
pub mod Failures
