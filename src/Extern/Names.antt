-- ===== src/Extern/Names.antt =====
-- `xor_name`: names, and prefixes as finite strings of bits.
use Prim.Native.Nat.{ℕ, ◌+◌, ◌<◌}
use mathlib.Core.Bool.{Bool, true, false}
use mathlib.Core.Logic.{◌⊎◌}
use mathlib.Core.Path.{◌≡◌}
use safe_network_archive.Prelude.Order.{Ord}

pub record XorNames : Type 1 where
  pub XorName : Type 0
  pub Prefix : Type 0
  pub name_ord : Ord XorName
  pub prefix_ord : Ord Prefix
  -- The last byte of a name. `XorName::bit`, and `XorName::cmp_distance` as the test for a strictly smaller distance.
  pub last_byte : XorName → ℕ
  pub bit : XorName → ℕ → Bool
  pub nearer : XorName → XorName → XorName → Bool
  -- `Prefix::default` is the empty prefix; `popped` drops the last bit, `pushed` adds one.
  pub default : Prefix
  pub bit_count : Prefix → ℕ
  pub is_empty : Prefix → Bool
  pub popped : Prefix → Prefix
  pub pushed : Prefix → Bool → Prefix
  -- `is_extension_of p q`: `q` is a strictly shorter beginning of `p`.
  pub is_extension_of : Prefix → Prefix → Bool
  pub matches : Prefix → XorName → Bool
  pub common_prefix : Prefix → XorName → ℕ
  -- `Prefix::cmp_distance p q target` as the test for a strictly smaller distance of `p`.
  pub prefix_nearer : XorName → Prefix → Prefix → Bool
  -- The name that a prefix has with its other bits zero.
  pub prefix_name : Prefix → XorName
  pub is_empty-default : is_empty default ≡ true
  pub bit_count_of_empty : (p : Prefix) → is_empty p ≡ true → bit_count p ≡ 0
  pub bit_count-popped : (p : Prefix) → is_empty p ≡ false → bit_count (popped p) + 1 ≡ bit_count p
  pub extension_longer : (p q : Prefix) → is_extension_of p q ≡ true → bit_count q < bit_count p
  pub extension_trans :
      (p q r : Prefix)
      → is_extension_of p q ≡ true
      → is_extension_of q r ≡ true
      → is_extension_of p r ≡ true
  pub popped_extension : (p : Prefix) → is_empty p ≡ false → is_extension_of p (popped p) ≡ true
  pub extension_popped :
      (p q : Prefix)
      → is_extension_of p q ≡ true
      → (q ≡ popped p) ⊎ (is_extension_of (popped p) q ≡ true)
  -- A longer prefix matches fewer names, and the two halves split the names of a prefix.
  pub matches-extension :
      (p q : Prefix) (n : XorName)
      → is_extension_of p q ≡ true
      → matches p n ≡ true
      → matches q n ≡ true
  pub matches-pushed :
      (p : Prefix) (d : Bool) (n : XorName)
      → matches p n ≡ true
      → bit n (bit_count p) ≡ d
      → matches (pushed p d) n ≡ true

module _ ⦃x : XorNames⦄ where
  abbrev pub XorName : Type 0
  XorName = x.XorName

  abbrev pub Prefix : Type 0
  Prefix = x.Prefix

  instance abbrev pub names_ord : Ord x.XorName
  names_ord = x.name_ord

  instance abbrev pub prefixes_ord : Ord x.Prefix
  prefixes_ord = x.prefix_ord
