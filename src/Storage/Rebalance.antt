-- ===== src/Storage/Rebalance.antt =====
-- was/app/rebalance.py: the script cut into statements, its run, and the state of the job. What the
-- database answers to a statement is a parameter.
pub mod Scan
pub mod Script
pub mod Grammar
pub mod Job
pub mod Outcome
pub mod Tests
