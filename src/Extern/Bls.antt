-- ===== src/Extern/Bls.antt =====
-- Keys and signatures of the `bls` crate, with the `bincode` bytes that are signed.
use mathlib.Core.Bool.{Bool}
use mathlib.Core.List.{List}
use mathlib.Core.Option.{Option}
use Prim.Native.Nat.{ℕ}
use safe_network_archive.Prelude.Order.{Ord}

pub record BlsKeys : Type 1 where
  pub PublicKey : Type 0
  pub Signature : Type 0
  pub key_ord : Ord PublicKey
  pub PublicKeySet : Type 0
  pub public_key : PublicKeySet → PublicKey
  -- `bincode::serialize`, which may fail, and `PublicKey::verify`.
  pub serialize : PublicKey → Option (List ℕ)
  pub verify : PublicKey → Signature → List ℕ → Bool

module _ ⦃b : BlsKeys⦄ where
  abbrev pub PublicKey : Type 0
  PublicKey = b.PublicKey

  abbrev pub Signature : Type 0
  Signature = b.Signature

  abbrev pub PublicKeySet : Type 0
  PublicKeySet = b.PublicKeySet

  instance abbrev pub keys_ord : Ord b.PublicKey
  keys_ord = b.key_ord

-- The `Decision` of sn_consensus that a relocation trigger wraps.
pub record Triggers : Type 1 where
  pub Trigger : Type 0
  pub trigger_ord : Ord Trigger

module _ ⦃t : Triggers⦄ where
  abbrev pub Trigger : Type 0
  Trigger = t.Trigger
