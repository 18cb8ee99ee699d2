-- ===== src/Capacity.antt =====
-- The capacity of a category: the invariant of its orders and reservations, what each write of the
-- modules orders and payments does to the counts of the module inventory, and the operations as
-- steps.
pub mod Counts
pub mod Invariant
pub mod Spares
pub mod Placing
pub mod Leaving
pub mod Paying
pub mod Steps
pub mod Interleaving
