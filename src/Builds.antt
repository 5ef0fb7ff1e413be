-- ===== src/Builds.antt =====
-- The build queue of the backend: backend/copr_backend/rpm_builds.py, worker_manager.py and
-- daemons/build_dispatcher.py.
pub mod Task
pub mod PriorityCounter
pub mod Limits
