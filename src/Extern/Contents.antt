-- ===== src/Extern/Contents.antt =====
-- `xor_name`: the bytes of a name, and the name of bytes by their hash.
use Prim.Native.Nat.{ℕ}
use mathlib.Core.List.{List}
use safe_network_archive.Extern.Names.{XorNames}

pub record NameContents ⦃x : XorNames⦄ : Type 0 where
  pub octets : x.XorName → List ℕ
  pub from_content : List ℕ → x.XorName
