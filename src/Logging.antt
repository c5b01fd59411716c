-- ===== src/Logging.antt =====
-- logging_worker.py: which records are shown and which files they are written to, and in which order.
pub mod Worker
pub mod Shown
pub mod Kept
