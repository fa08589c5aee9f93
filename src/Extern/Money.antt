-- ===== src/Extern/Money.antt =====
-- `sn_dbc`: tokens, the DBCs that hold them and the one-time owners of new ones, with the encryption
-- to their keys.
use Prim.Native.Nat.{ℕ, ◌+◌, ◌^◌, ◌<◌, ◌≤◌}
use mathlib.Core.Bool.{Bool, true}
use mathlib.Core.List.{List}
use mathlib.Core.Option.{Option, none, some}
use mathlib.Core.Path.{◌≡◌}
use safe_network_archive.Prelude.Order.{Ord}
use safe_network_archive.Prelude.Tests.{ltb}

pub record Tokens : Type 1 where
  pub Token : Type 0
  pub from_nano : ℕ → Token
  pub as_nano : Token → ℕ
  pub checked_add : Token → Token → Option Token
  pub checked_sub : Token → Token → Option Token
  pub less : Token → Token → Bool
  pub as_nano-lt : (t : Token) → as_nano t < 2 ^ 64
  pub as_nano-from_nano : (n : ℕ) → n < 2 ^ 64 → as_nano (from_nano n) ≡ n
  pub checked_add-some :
      (a b c : Token) → checked_add a b ≡ some c → as_nano c ≡ as_nano a + as_nano b
  pub checked_add-none : (a b : Token) → checked_add a b ≡ none → 2 ^ 64 ≤ as_nano a + as_nano b
  pub checked_sub-some :
      (a b c : Token) → checked_sub a b ≡ some c → as_nano c + as_nano b ≡ as_nano a
  pub checked_sub-none : (a b : Token) → checked_sub a b ≡ none → as_nano a < as_nano b
  pub less-as_nano : (a b : Token) → less a b ≡ ltb (as_nano a) (as_nano b)

-- A bearer DBC has its own secret key in it. A random source makes the one-time owners.
pub record Dbcs ⦃t : Tokens⦄ : Type 1 where
  pub Dbc : Type 0
  pub DbcKey : Type 0
  pub DbcSecret : Type 0
  pub Ciphertext : Type 0
  pub DbcSignature : Type 0
  pub Rng : Type 0
  pub OwnerOnce : Type 0
  pub dbc_key_ord : Ord DbcKey
  pub dbc_public_key : DbcSecret → DbcKey
  pub as_revealed_input_bearer : Dbc → Option DbcSecret
  pub revealed_amount_bearer : Dbc → Option t.Token
  pub from_owner_base : Rng → DbcKey → OwnerOnce × Rng
  pub encrypt : DbcKey → List ℕ → Ciphertext
  pub decrypt : DbcSecret → Ciphertext → Option (List ℕ)
  pub cipher_bytes : Ciphertext → List ℕ
  pub key_bytes : DbcKey → List ℕ
  pub sign : DbcSecret → List ℕ → DbcSignature
  pub verify : DbcKey → DbcSignature → List ℕ → Bool
  pub verify-sign :
      (secret : DbcSecret) (octets : List ℕ)
      → verify (dbc_public_key secret) (sign secret octets) octets ≡ true
  pub decrypt-encrypt :
      (secret : DbcSecret) (octets : List ℕ)
      → decrypt secret (encrypt (dbc_public_key secret) octets) ≡ some octets
  -- Both are errors exactly for a DBC that is not a bearer's.
  pub bearer_amount :
      (dbc : Dbc) → revealed_amount_bearer dbc ≡ none → as_revealed_input_bearer dbc ≡ none
