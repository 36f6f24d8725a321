-- ===== src/Storage.antt =====
-- was/app/retention.py, was/app/disk_guard.py: how long logs are kept, and what is given up when the
-- disk is full.
pub mod Retention
pub mod DiskGuard
pub mod Rebalance
pub mod Tests
