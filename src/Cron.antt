-- ===== src/Cron.antt =====
-- internal/plugins/trigger/cron: schedules, jobs and the service that keeps and fires them.
pub mod Schedule
pub mod Job
pub mod Service
pub mod Tools
pub mod Restart
pub mod Firing
pub mod Delay
pub mod Runs
pub mod Finish
pub mod Quiet
pub mod Tests
