-- ===== src/Scheduler.antt =====
-- mod/scheduler/src: tasks that wait for dependencies, and the goroutine that runs them.
pub mod ScheduledTask
pub mod Runner
pub mod Invariant
pub mod Kept
pub mod Preserved
pub mod Releases
mod Tests
