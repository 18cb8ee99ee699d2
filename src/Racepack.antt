-- ===== src/Racepack.antt =====
-- The module racepack (services/api/internal/modules/racepack): counters, slots, the pickup of a
-- racepack, and problem cases, on tables of their own.
pub mod Rows
pub mod Calls
pub mod Slots
pub mod Pickup
pub mod Cases
pub mod Written
pub mod Promises
pub mod Idempotency
pub mod Handler
