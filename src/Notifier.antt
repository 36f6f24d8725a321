-- ===== src/Notifier.antt =====
-- was/app/notifier.py: the messages about alerts, their texts and where they are posted.
pub mod Texts
pub mod Dispatch
