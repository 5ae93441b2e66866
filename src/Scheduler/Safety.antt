-- ===== src/Scheduler/Safety.antt =====
-- What a cohort is debited with, over all that its processes save.
pub mod Attempts
mod Launches
pub mod Processes
pub mod Cohorts
