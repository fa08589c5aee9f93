-- ===== src/Tests/Names.antt =====
-- Concrete names and prefixes: a name is a number, bit `i` of it the `i`-th binary digit, and a
-- prefix is the list of its bits, the last one first.
use Prim.Native.Nat.{bit_xor}
use safe_network_archive.Extern.{XorNames, Triggers}
use safe_network_archive.Prelude.Orders.{ord_by}
use safe_network_archive.Prelude.{
  ℕ, suc, ◌+◌, ◌*◌, ◌/◌, ◌%◌, ◌^◌, ◌<◌, ◌≡◌, refl, ap, ◌⊎◌, inl, inr, Bool, true, false, ◌&&◌, ◌||◌,
  List, [], ◌∷◌, ◌==◌, ltb, if◌then◌else◌, arith, Ord, nat_ord, Bool-cases, length,
}

abbrev pub ToyPrefix : Type 0
ToyPrefix = List Bool

abbrev pub bit_value : Bool → ℕ
bit_value true = 1
bit_value false = 0

abbrev pub prefix_code : ToyPrefix → ℕ
prefix_code [] = 1
prefix_code (d ∷ p) = 2 * prefix_code p + bit_value d

pub prefix_code_pos : (p : ToyPrefix) → 0 < prefix_code p
prefix_code_pos [] = omega arith
prefix_code_pos (d ∷ p) = omega (arith, prefix_code_pos p)

pub bit_value-injective : (d e : Bool) → bit_value d ≡ bit_value e → d ≡ e
bit_value-injective true true h = refl
bit_value-injective true false h = absurd (omega arith)
bit_value-injective false true h = absurd (omega arith)
bit_value-injective false false h = refl

bit_value-le : (d : Bool) → bit_value d < 2
bit_value-le true = omega arith
bit_value-le false = omega arith

pub prefix_code-injective : (p q : ToyPrefix) → prefix_code p ≡ prefix_code q → p ≡ q
prefix_code-injective [] [] h = refl
prefix_code-injective [] (e ∷ q) h = absurd (omega (arith, prefix_code_pos q))
prefix_code-injective (d ∷ p) [] h = absurd (omega (arith, prefix_code_pos p))
prefix_code-injective (d ∷ p) (e ∷ q) h =
    let a : prefix_code p ≡ prefix_code q = omega (arith, bit_value-le d, bit_value-le e) in
    let c : bit_value d ≡ bit_value e = omega (arith, a) in
    cc (prefix_code-injective p q a, bit_value-injective d e c)

abbrev pub toy_prefix_ord : Ord ToyPrefix
toy_prefix_ord = ord_by prefix_code prefix_code-injective nat_ord

abbrev pub toy_is_empty : ToyPrefix → Bool
toy_is_empty [] = true
toy_is_empty (d ∷ p) = false

abbrev pub toy_popped : ToyPrefix → ToyPrefix
toy_popped [] = []
toy_popped (d ∷ p) = p

abbrev pub toy_extension : ToyPrefix → ToyPrefix → Bool
toy_extension [] q = false
toy_extension (d ∷ p) q = prefix_code p == prefix_code q || toy_extension p q

abbrev pub toy_bit : ℕ → ℕ → Bool
toy_bit n i = (n / 2 ^ i) % 2 == 1

abbrev pub bool_eq : Bool → Bool → Bool
bool_eq true d = d
bool_eq false true = false
bool_eq false false = true

abbrev pub toy_matches : ToyPrefix → ℕ → Bool
toy_matches [] n = true
toy_matches (d ∷ p) n = bool_eq (toy_bit n (length p)) d && toy_matches p n

abbrev pub toy_common : ToyPrefix → ℕ → ℕ
toy_common [] n = 0
toy_common (d ∷ p) n = if toy_matches (d ∷ p) n then suc (length p) else toy_common p n

abbrev pub toy_name : ToyPrefix → ℕ
toy_name [] = 0
toy_name (d ∷ p) = bit_value d * 2 ^ length p + toy_name p

toy_code_eq : (p q : ToyPrefix) → (prefix_code p == prefix_code q) ≡ true → p ≡ q
toy_code_eq p q h = prefix_code-injective p q (ground arith)

pub toy_empty_count : (p : ToyPrefix) → toy_is_empty p ≡ true → length p ≡ 0
toy_empty_count [] h = refl
toy_empty_count (d ∷ p) h = cc

pub toy_popped_count :
    (p : ToyPrefix) → toy_is_empty p ≡ false → length (toy_popped p) + 1 ≡ length p
toy_popped_count [] h = cc
toy_popped_count (d ∷ p) h = omega arith

pub toy_longer : (p q : ToyPrefix) → toy_extension p q ≡ true → length q < length p
toy_longer [] q h = cc
toy_longer (d ∷ p) q h = elim (Bool-cases (prefix_code p == prefix_code q)) [
  | inl y ↦ omega (arith, ap (λ l. length l) (toy_code_eq p q y))
  | inr n ↦ omega (arith, toy_longer p q (ground arith))
]

pub toy_trans :
    (p q r : ToyPrefix)
    → toy_extension p q ≡ true
    → toy_extension q r ≡ true
    → toy_extension p r ≡ true
toy_trans [] q r h k = cc
toy_trans (d ∷ p) q r h k = elim (Bool-cases (prefix_code p == prefix_code q)) [
  | inl y ↦ let e = toy_code_eq p q y in rw (e) (ground arith)
  | inr n ↦ ground (arith, toy_trans p q r)
]

pub toy_popped_extension :
    (p : ToyPrefix) → toy_is_empty p ≡ false → toy_extension p (toy_popped p) ≡ true
toy_popped_extension [] h = cc
toy_popped_extension (d ∷ p) h = ground arith

pub toy_extension_popped :
    (p q : ToyPrefix)
    → toy_extension p q ≡ true
    → (q ≡ toy_popped p) ⊎ (toy_extension (toy_popped p) q ≡ true)
toy_extension_popped [] q h = cc
toy_extension_popped (d ∷ p) q h = elim (Bool-cases (prefix_code p == prefix_code q)) [
  | inl y ↦ inl (prefix_code-injective q p (ground arith))
  | inr n ↦ inr (ground arith)
]

pub toy_matches_extension :
    (p q : ToyPrefix) (n : ℕ)
    → toy_extension p q ≡ true
    → toy_matches p n ≡ true
    → toy_matches q n ≡ true
toy_matches_extension [] q n h k = cc
toy_matches_extension (d ∷ p) q n h k = elim (Bool-cases (prefix_code p == prefix_code q)) [
  | inl y ↦ rw (← toy_code_eq p q y) (ground arith)
  | inr z ↦ toy_matches_extension p q n (ground arith) (ground arith)
]

pub toy_matches_pushed :
    (p : ToyPrefix) (d : Bool) (n : ℕ)
    → toy_matches p n ≡ true
    → toy_bit n (length p) ≡ d
    → toy_matches (d ∷ p) n ≡ true
toy_matches_pushed p true n h k = rw (k, h)
toy_matches_pushed p false n h k = rw (k, h)

-- Between two prefixes the one with more common bits is nearer.
instance abbrev pub toy_names : XorNames
toy_names = record {
  XorName = ℕ;
  Prefix = ToyPrefix;
  name_ord = nat_ord;
  prefix_ord = toy_prefix_ord;
  last_byte = λ n. n % 256;
  bit = toy_bit;
  nearer = λ target a c. ltb (bit_xor target a) (bit_xor target c);
  default = [];
  bit_count = length;
  is_empty = toy_is_empty;
  popped = toy_popped;
  pushed = λ p d. d ∷ p;
  is_extension_of = toy_extension;
  matches = toy_matches;
  common_prefix = toy_common;
  prefix_nearer = λ n p q. ltb (toy_common q n) (toy_common p n);
  prefix_name = toy_name;
  is_empty-default = refl;
  bit_count_of_empty = toy_empty_count;
  bit_count-popped = toy_popped_count;
  extension_longer = toy_longer;
  extension_trans = toy_trans;
  popped_extension = toy_popped_extension;
  extension_popped = toy_extension_popped;
  matches-extension = toy_matches_extension;
  matches-pushed = toy_matches_pushed;
}

instance abbrev pub toy_triggers : Triggers
toy_triggers = record { Trigger = ℕ; trigger_ord = nat_ord }
