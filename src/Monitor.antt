-- ===== src/Monitor.antt =====
-- was/app/service_monitor.py: the rollup of logs, the judgement of buckets, and the alerts that
-- are sent about them.
pub mod Alert
pub mod Float
pub mod Whole
pub mod Stats
pub mod Patterns
pub mod Eval
pub mod Episodes
pub mod Detect
pub mod Tests
