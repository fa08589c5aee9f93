-- ===== src/Prelude/Orders.antt =====
-- Orders on pairs, options and lists, and the order that an injection carries back.
use mathlib.Core.Bool.{Bool, true, false, ◌&&◌, ◌||◌}
use mathlib.Core.Logic.{◌↔◌}
use mathlib.Core.Option.{Option, none, some}
use mathlib.Core.Path.{◌≡◌, refl, ap}
use native.Mathlib.Omega.{arith}
use safe_network_archive.Prelude.Order.{Ord}

module _ {A B : Type 0} (oa : Ord A) (ob : Ord B) where
  abbrev pub pair_beq : A × B → A × B → Bool
  pair_beq (a, b) (c, d) = oa.beq a c && ob.beq b d

  abbrev pub pair_lt : A × B → A × B → Bool
  pair_lt (a, b) (c, d) = oa.lt a c || oa.beq a c && ob.lt b d

  pub pair_beq_iff : (p q : A × B) → (pair_beq p q ≡ true) ↔ (p ≡ q)
  pair_beq_iff (a, b) (c, d) = ground (arith, oa.beq_iff a c, ob.beq_iff b d)

  pub pair_lt_irrefl : (p : A × B) → pair_lt p p ≡ false
  pair_lt_irrefl (a, b) = ground (arith, oa.lt_irrefl a, ob.lt_irrefl b)

  pub pair_lt_trans : (p q r : A × B) → pair_lt p q ≡ true → pair_lt q r ≡ true → pair_lt p r ≡ true
  pair_lt_trans (a, b) (c, d) (e, f) h k =
      ground (
        arith,
        oa.beq_iff a c,
        oa.beq_iff c e,
        oa.beq_iff a e,
        oa.lt_trans a c e,
        ob.lt_trans b d f,
      )

  pub pair_lt_total : (p q : A × B) → pair_lt p q ≡ false → pair_lt q p ≡ false → p ≡ q
  pair_lt_total (a, b) (c, d) h k =
      ground (arith, oa.beq_iff a c, oa.beq_iff c a, oa.lt_total a c, ob.lt_total b d)

  abbrev pub pair_ord : Ord (A × B)
  pair_ord = record {
    beq = pair_beq;
    lt = pair_lt;
    beq_iff = pair_beq_iff;
    lt_irrefl = pair_lt_irrefl;
    lt_trans = pair_lt_trans;
    lt_total = pair_lt_total;
  }

-- `None` is the least option.
module _ {A : Type 0} (oa : Ord A) where
  abbrev pub option_beq : Option A → Option A → Bool
  option_beq none none = true
  option_beq none (some b) = false
  option_beq (some a) none = false
  option_beq (some a) (some b) = oa.beq a b

  abbrev pub option_lt : Option A → Option A → Bool
  option_lt none none = false
  option_lt none (some b) = true
  option_lt (some a) none = false
  option_lt (some a) (some b) = oa.lt a b

  pub option_beq_iff : (p q : Option A) → (option_beq p q ≡ true) ↔ (p ≡ q)
  option_beq_iff none none = ground arith
  option_beq_iff none (some b) = ground arith
  option_beq_iff (some a) none = ground arith
  option_beq_iff (some a) (some b) = ground (arith, oa.beq_iff a b)

  pub option_lt_irrefl : (p : Option A) → option_lt p p ≡ false
  option_lt_irrefl none = refl
  option_lt_irrefl (some a) = oa.lt_irrefl a

  pub option_lt_trans :
      (p q r : Option A) → option_lt p q ≡ true → option_lt q r ≡ true → option_lt p r ≡ true
  option_lt_trans none none r h k = absurd (ground arith)
  option_lt_trans none (some b) none h k = k
  option_lt_trans none (some b) (some c) h k = refl
  option_lt_trans (some a) none r h k = absurd (ground arith)
  option_lt_trans (some a) (some b) none h k = k
  option_lt_trans (some a) (some b) (some c) h k = oa.lt_trans a b c h k

  pub option_lt_total : (p q : Option A) → option_lt p q ≡ false → option_lt q p ≡ false → p ≡ q
  option_lt_total none none h k = refl
  option_lt_total none (some b) h k = absurd (ground arith)
  option_lt_total (some a) none h k = absurd (ground arith)
  option_lt_total (some a) (some b) h k = ap some (oa.lt_total a b h k)

  abbrev pub option_ord : Ord (Option A)
  option_ord = record {
    beq = option_beq;
    lt = option_lt;
    beq_iff = option_beq_iff;
    lt_irrefl = option_lt_irrefl;
    lt_trans = option_lt_trans;
    lt_total = option_lt_total;
  }

-- The order of `A` by the values of an injection, as `derive(Ord)` compares the fields in turn.
module _ {A B : Type 0} (f : A → B) (injective : (a c : A) → f a ≡ f c → a ≡ c) (ob : Ord B) where
  pub by_beq_iff : (a c : A) → (ob.beq (f a) (f c) ≡ true) ↔ (a ≡ c)
  by_beq_iff a c =
      (λ h. injective a c ((ob.beq_iff (f a) (f c)).0 h), λ e. (ob.beq_iff (f a) (f c)).1 (ap f e))

  abbrev pub ord_by : Ord A
  ord_by = record {
    beq = λ a c. ob.beq (f a) (f c);
    lt = λ a c. ob.lt (f a) (f c);
    beq_iff = by_beq_iff;
    lt_irrefl = λ a. ob.lt_irrefl (f a);
    lt_trans = λ a c e. ob.lt_trans (f a) (f c) (f e);
    lt_total = λ a c h k. injective a c (ob.lt_total (f a) (f c) h k);
  }
