-- ===== src/Merge.antt =====
-- course/services/group-merge-strategy
pub mod Groups
pub mod Sizes
pub mod Assign
pub mod Ranking
pub mod Activity
mod Tests
