-- ===== src/Cron.antt =====
-- user/cron/cron.c and cron.h, the jobs that the logger runs by the clock: `Dst` is the summer time,
-- `Job` the test of a job, `Timer` the handler of the minute timer; the other modules prove.
pub mod Dst
pub mod Job
pub mod Summer
pub mod Select
pub mod Timer
pub mod Minutes
pub mod Commands
pub mod Due
pub mod Tests
