-- ===== src/UserStore/Again.antt =====
-- The bulk uploads: what a run leaves in the tables, and that a second run finds it there.
pub mod Subjects
pub mod Checks
pub mod Sessions
pub mod Reviews
