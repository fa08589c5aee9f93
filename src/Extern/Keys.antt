-- ===== src/Extern/Keys.antt =====
-- The keys and signatures of users, of the `ed25519` and `bls` packages.
use safe_network_archive.Prelude.Order.{Ord}

pub record UserKeys : Type 1 where
  pub UserKey : Type 0
  pub UserSignature : Type 0
  pub user_key_ord : Ord UserKey

module _ ⦃u : UserKeys⦄ where
  abbrev pub UserKey : Type 0
  UserKey = u.UserKey

  abbrev pub UserSignature : Type 0
  UserSignature = u.UserSignature
