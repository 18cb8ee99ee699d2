-- ===== src/Queue.antt =====
-- The waiting room (services/api/internal/modules/queue).
pub mod Rows
pub mod Cache
pub mod Tokens
pub mod Service
pub mod Control
pub mod Sound
pub mod Line
pub mod Release
pub mod Keeps
pub mod Joins
pub mod Steps
