-- ===== src/Extern.antt =====
-- Interfaces of the code that the repository only calls, passed as instance arguments: the `bls`
-- keys and shares, the `crdts` Merkle register, the `xor_name` names, prefixes and hashes, the
-- `sn_consensus` decisions, the `multibase` encodings, a constant of `self_encryption`, and the
-- floating-point numbers. Their laws are what the documentation of these crates states.
pub mod Bases
pub mod Bls
pub mod Consensus
pub mod Contents
pub mod Encryption
pub mod F32
pub mod F64
pub mod Keys
pub mod Merkle
pub mod Names
pub mod Shares
pub mod Money
pub use Bases.*
pub use Bls.*
pub use Consensus.*
pub use Contents.*
pub use Encryption.*
pub use Keys.*
pub use F32.*
pub use F64.*
pub use Merkle.*
pub use Names.*
pub use Shares.*
pub use Money.*
