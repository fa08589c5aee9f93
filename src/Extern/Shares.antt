-- ===== src/Extern/Shares.antt =====
-- Threshold signatures of the `bls` crate, and the SHA3 digest of `tiny_keccak`. What two sets, two
-- shares or two digests are is decided by their orders.
use Prim.Native.Nat.{ℕ}
use mathlib.Core.Bool.{Bool}
use mathlib.Core.List.{List}
use mathlib.Core.Option.{Option}
use safe_network_archive.Extern.Bls.{BlsKeys}
use safe_network_archive.Prelude.Order.{Ord}

pub record ThresholdKeys ⦃b : BlsKeys⦄ : Type 1 where
  pub SignatureShare : Type 0
  pub Digest : Type 0
  pub set_ord : Ord b.PublicKeySet
  pub share_ord : Ord SignatureShare
  pub digest_ord : Ord Digest
  pub threshold : b.PublicKeySet → ℕ
  -- `public_key_share(index).verify(share, payload)`.
  pub verify_share : b.PublicKeySet → ℕ → SignatureShare → List ℕ → Bool
  -- `combine_signatures`; `none` is its error.
  pub combine_signatures : b.PublicKeySet → List (ℕ × SignatureShare) → Option b.Signature
  pub to_bytes : b.PublicKey → List ℕ
  pub sha3 : List ℕ → Digest
