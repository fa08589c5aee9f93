-- ===== src/Tests.antt =====
-- Concrete platforms, and the theorems at concrete inputs.
pub mod Names
pub mod Platform
mod AggregatorTests
mod CacheTests
mod FaultTests
pub mod HistoryTests
pub mod KnowledgeTests
mod AntiEntropyTests
mod MembershipTests
mod RegisterTests
mod RelocationTests
mod SpaceTests
mod UrlTests
pub mod TreeTests
pub mod Wallets
pub mod DagTests
mod WireTests
mod TransferTests
mod FileTests
pub mod Folders
mod SyncTests
