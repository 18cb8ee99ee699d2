-- ===== src/Orders.antt =====
-- The module orders (services/api/internal/modules/orders): checkout of participants and guests,
-- the claim of a guest's order, cancellation, refund and the expiry of unpaid orders. Each is a
-- transaction; audit entries, notifications and metrics, which change no table, are left out.
pub mod Queries
pub mod Service
pub mod Checkout
pub mod Guest
pub mod Changes
pub mod Expiration
pub mod Actions
pub mod Promises
pub mod Expiry
pub mod Cancelling
pub mod ChangePromises
pub mod GuestPromises
pub mod Grants
