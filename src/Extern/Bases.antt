-- ===== src/Extern/Bases.antt =====
-- `multibase`: bytes as text in a base, which the text names.
use Prim.Native.Nat.{ℕ, ◌<◌}
use mathlib.Core.List.{List}
use mathlib.Core.Option.{Option, some}
use mathlib.Core.Path.{◌≡◌}
use safe_network_archive.Prelude.Lists.{All}

pub record Multibase : Type 1 where
  pub Text : Type 0
  pub Base : Type 0
  pub base32_z : Base
  pub base32_lower : Base
  pub base64 : Base
  pub encode : Base → List ℕ → Text
  -- `none` is its error.
  pub decode : Text → Option (Base × List ℕ)
  pub decode-encode :
      (base : Base) (bytes : List ℕ)
      → All (λ byte. byte < 256) bytes
      → decode (encode base bytes) ≡ some (base, bytes)
