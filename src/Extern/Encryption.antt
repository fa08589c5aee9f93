-- ===== src/Extern/Encryption.antt =====
-- `self_encryption`: the least number of bytes that it encrypts.
use Prim.Native.Nat.{ℕ}

pub record SelfEncryption : Type 0 where
  pub min_encryptable_bytes : ℕ
