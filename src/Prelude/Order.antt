-- ===== src/Prelude/Order.antt =====
-- Total orders as an interface: what `Ord` promises of a key of the standard maps and sets.
use Prim.Native.Nat.{ℕ}
use mathlib.Core.Bool.{Bool, true, false}
use mathlib.Core.Logic.{◌↔◌, ◌≢◌}
use mathlib.Core.Path.{◌≡◌, refl}
use native.Mathlib.Omega.{arith}
use safe_network_archive.Prelude.Tests.{ltb, ◌==◌, ==_iff}

pub record Ord (A : Type 0) : Type 0 where
  pub beq : A → A → Bool
  pub lt : A → A → Bool
  pub beq_iff : (a b : A) → (beq a b ≡ true) ↔ (a ≡ b)
  pub lt_irrefl : (a : A) → lt a a ≡ false
  pub lt_trans : (a b c : A) → lt a b ≡ true → lt b c ≡ true → lt a c ≡ true
  pub lt_total : (a b : A) → lt a b ≡ false → lt b a ≡ false → a ≡ b

infix 50 ◌=?◌ ◌<?◌
abbrev pub ◌=?◌ : {A : Type 0} ⦃o : Ord A⦄ → A → A → Bool
◌=?◌ ⦃o⦄ = o.beq

abbrev pub ◌<?◌ : {A : Type 0} ⦃o : Ord A⦄ → A → A → Bool
◌<?◌ ⦃o⦄ = o.lt

module _ {A : Type 0} ⦃o : Ord A⦄ where
  pub =?-refl : (a : A) → (a =? a) ≡ true
  =?-refl a = (o.beq_iff a a).1 refl

  pub eq_of_=? : (a b : A) → (a =? b) ≡ true → a ≡ b
  eq_of_=? a b h = (o.beq_iff a b).0 h

  pub ne_of_=? : (a b : A) → (a =? b) ≡ false → a ≢ b
  ne_of_=? a b h e = cc ((o.beq_iff a b).1 e)

  pub =?_of_ne : (a b : A) → a ≢ b → (a =? b) ≡ false
  =?_of_ne a b h = ground (arith, (o.beq_iff a b).0)

pub ℕ-lt_irrefl : (a : ℕ) → ltb a a ≡ false
ℕ-lt_irrefl a = ground arith

pub ℕ-lt_trans : (a b c : ℕ) → ltb a b ≡ true → ltb b c ≡ true → ltb a c ≡ true
ℕ-lt_trans a b c h k = ground arith

pub ℕ-lt_total : (a b : ℕ) → ltb a b ≡ false → ltb b a ≡ false → a ≡ b
ℕ-lt_total a b h k = ground arith

instance abbrev pub nat_ord : Ord ℕ
nat_ord = record {
  beq = ◌==◌;
  lt = ltb;
  beq_iff = ==_iff;
  lt_irrefl = ℕ-lt_irrefl;
  lt_trans = ℕ-lt_trans;
  lt_total = ℕ-lt_total;
}
