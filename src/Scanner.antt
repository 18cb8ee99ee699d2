-- ===== src/Scanner.antt =====
-- The module scanner (services/api/internal/modules/scanner): the check-in of tickets.
pub mod Service
pub mod Desk
mod Keeps
mod Handles
pub mod Once
pub mod Retries
pub mod CheckIns
pub mod Shown
