-- ===== src/Cron.antt =====
-- packages/core/src/backup: the cron schedules of backups. A text is the list of its characters.
pub mod Words
pub mod Validator
pub mod Fields
pub mod Calendar
pub mod Occurrence
