-- ===== src/Groups.antt =====
-- The groups of a course and their members: src/course, its models, GroupService, GroupRepository
-- and the command that joins a random group.
pub mod Models
pub mod Store
pub mod Preserve
pub mod Repository
pub mod Names
pub mod Service
pub mod Bulk
pub mod Joining
pub mod Random
pub mod Invariant
mod Tests
