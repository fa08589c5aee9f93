-- ===== src/Files.antt =====
-- Files in a container: sn_api/src/app/files.
pub mod Info
pub mod RealPath
pub mod Changes
pub mod Paths
pub mod Names
pub mod Sync
pub mod Link
pub mod Remove
