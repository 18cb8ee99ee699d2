-- ===== src/Lifecycle.antt =====
-- The module lifecycle (services/api/internal/modules/lifecycle): the phases of the registration for
-- a category.
pub mod Service
pub mod Window
pub mod Advancer
