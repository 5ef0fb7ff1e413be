-- ===== src/Examples.antt =====
-- The theorems at concrete inputs, part by part. No code of the repository is modelled here.
mod Workers
mod Builds
mod Createrepo
mod Frontend
mod Imported
mod Permissions
mod Lock
mod Chroots
mod Backend
mod Rpm
