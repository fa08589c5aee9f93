-- ===== src/Register.antt =====
-- The register of sn_interface/src/types/register.
pub mod Access
pub mod Crdt
pub mod Data
pub mod Entries
pub mod Limits
pub mod Policy
