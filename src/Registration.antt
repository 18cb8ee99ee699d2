-- ===== src/Registration.antt =====
-- The registration modes of events and categories, and the gate of checkout
-- (services/api/internal/modules/registration).
pub mod Modes
pub mod Settings
pub mod Gate
pub mod Admission
