-- ===== src/Frontend.antt =====
-- frontend/coprs_frontend/coprs: the builds and batches that the frontend keeps, and its helpers.
pub mod WorkList
pub mod Status
pub mod User
pub mod Build
pub mod Batch
pub mod Cancel
pub mod Update
pub mod Backend
pub mod Imported
pub mod Jobs
