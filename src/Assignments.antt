-- ===== src/Assignments.antt =====
-- Assignments, the registrations of groups and users for them, and the scheduler.
pub mod Models
pub mod Store
pub mod Registrations
pub mod Removal
pub mod Registering
pub mod Service
pub mod Scheduler
pub mod Invariant
mod Tests
