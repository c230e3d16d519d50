-- ===== src/Backup.antt =====
-- Backups: the retention of stream files.
pub mod Prune
pub mod Groups
pub mod Names
