-- ===== src/Access.antt =====
-- The module access (services/api/internal/modules/access): the slots of pools, and the grants that
-- take them.
pub mod Pools
pub mod Slots
pub mod Admission
