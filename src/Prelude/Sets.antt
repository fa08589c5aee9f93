-- ===== src/Prelude/Sets.antt =====
-- `BTreeSet`: a list that its operations keep in order.
use mathlib.Core.Bool.{Bool, true, false, ◌||◌, ◌&&◌}
use mathlib.Core.List.{List, [], ◌∷◌}
use mathlib.Core.Logic.{◌⊎◌, inl, inr}
use mathlib.Core.Path.{◌≡◌, refl, sym, ap, ◌∙◌}
use native.Mathlib.Omega.{arith}
use safe_network_archive.Prelude.Tests.{if◌then◌else◌, Bool-cases}
use safe_network_archive.Prelude.Lists.{In, select, any}
use safe_network_archive.Prelude.Order.{Ord, ◌=?◌, ◌<?◌}

module _ {A : Type 0} ⦃o : Ord A⦄ where
  unfoldable pub contains : A → List A → Bool
  contains a [] = false
  contains a (x ∷ xs) = x =? a || contains a xs

  unfoldable pub insert : A → List A → List A
  insert a [] = a ∷ []
  insert a (x ∷ xs) = if x =? a then x ∷ xs else if a <? x then a ∷ x ∷ xs else x ∷ insert a xs

  -- `BTreeSet::from_iter` and `collect`.
  unfoldable pub from_iter : List A → List A
  from_iter [] = []
  from_iter (x ∷ xs) = insert x (from_iter xs)

  pub contains-insert :
      (a b : A) (xs : List A) → contains b (insert a xs) ≡ (a =? b || contains b xs)
  unfolding contains insert
  contains-insert a b [] = refl
  contains-insert a b (x ∷ xs) =
      ground (arith, o.beq_iff x a, o.beq_iff x b, o.beq_iff a b, contains-insert a b xs)

  pub contains-from_iter : (a : A) (xs : List A) → contains a (from_iter xs) ≡ contains a xs
  unfolding from_iter contains
  contains-from_iter a [] = refl
  contains-from_iter a (x ∷ xs) = rw (contains-insert x a (from_iter xs), contains-from_iter a xs)

  pub contains_of_In : (a : A) (xs : List A) → In a xs → contains a xs ≡ true
  unfolding contains
  contains_of_In a [] m = absurd m
  contains_of_In a (x ∷ xs) (inl e) = ground (arith, (o.beq_iff x a).1)
  contains_of_In a (x ∷ xs) (inr m) = ground (arith, contains_of_In a xs m)

  pub In-of_contains : (a : A) (xs : List A) → contains a xs ≡ true → In a xs
  unfolding contains
  In-of_contains a [] h = absurd (ground arith)
  In-of_contains a (x ∷ xs) h = elim (Bool-cases (x =? a)) [
    | inl e ↦ inl (sym ((o.beq_iff x a).0 e))
    | inr n ↦ inr (In-of_contains a xs (ground arith))
  ]

  pub In-insert : (a b : A) (xs : List A) → In b (insert a xs) → (b ≡ a) ⊎ In b xs
  In-insert a b xs m = elim (Bool-cases (a =? b)) [
    | inl e ↦ inl (sym ((o.beq_iff a b).0 e))
    | inr n ↦ inr (
        In-of_contains b xs
          (ground (arith, contains-insert a b xs, contains_of_In b (insert a xs) m)))
  ]

  pub insert-In : (a b : A) (xs : List A) → (b ≡ a) ⊎ In b xs → In b (insert a xs)
  insert-In a b xs m =
      let there : (a =? b || contains b xs) ≡ true = elim m [
        | inl e ↦ ground (arith, (o.beq_iff a b).1 (sym e))
        | inr i ↦ ground (arith, contains_of_In b xs i)
      ] in
      In-of_contains b (insert a xs) (contains-insert a b xs ∙ there)

  pub contains-select :
      (p : A → Bool) (a : A) (xs : List A) → contains a (select p xs) ≡ (contains a xs && p a)
  unfolding contains select
  contains-select p a [] = refl
  contains-select p a (x ∷ xs) = elim (Bool-cases (x =? a)) [
    | inl y ↦ let e : x ≡ a = (o.beq_iff x a).0 y in ground (arith, contains-select p a xs, ap p e)
    | inr z ↦ ground (arith, contains-select p a xs)
  ]

  -- A test is met in a set if a member or what was inserted meets it.
  pub any-insert : (p : A → Bool) (a : A) (xs : List A) → any p (insert a xs) ≡ (p a || any p xs)
  unfolding any insert
  any-insert p a [] = refl
  any-insert p a (x ∷ xs) = elim (Bool-cases (x =? a)) [
    | inl y ↦ let e : p x ≡ p a = ap p ((o.beq_iff x a).0 y) in ground arith
    | inr n ↦ ground (arith, any-insert p a xs)
  ]

  pub any-from_iter : (p : A → Bool) (xs : List A) → any p (from_iter xs) ≡ any p xs
  unfolding any from_iter
  any-from_iter p [] = refl
  any-from_iter p (x ∷ xs) = ground (arith, any-insert p x (from_iter xs), any-from_iter p xs)
