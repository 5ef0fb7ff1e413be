-- ===== src/Workers.antt =====
-- common/copr_common/worker_manager.py
pub mod JobQueue
pub mod StringCounter
pub mod Limits
pub mod Manager
pub mod Run
