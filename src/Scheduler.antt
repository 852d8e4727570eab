-- ===== src/Scheduler.antt =====
-- kernel/src/scheduler: the task table and what runs over it.
pub mod Task
pub mod Lookup
pub mod Switch
pub mod Fair
pub mod Areas
