-- ===== src/Extern/Consensus.antt =====
-- The `Decision` of sn_consensus: what the voters of a generation agreed on, with the section's
-- signature on each proposal.
use Prim.Native.Nat.{ℕ}
use mathlib.Core.Bool.{Bool}
use mathlib.Core.List.{List}
use safe_network_archive.Extern.Bls.{BlsKeys}

pub record Decisions ⦃b : BlsKeys⦄ (T : Type 0) : Type 1 where
  pub Decision : Type 0
  pub generation : Decision → ℕ
  pub proposals : Decision → List (T × b.Signature)
  -- `Decision::validate` with the section key; false is its error.
  pub validate : b.PublicKey → Decision → Bool
