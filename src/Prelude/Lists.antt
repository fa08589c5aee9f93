-- ===== src/Prelude/Lists.antt =====
-- Lists measured by native numbers, with Boolean tests.
use Prim.Native.Nat.{ℕ, zero, suc, ◌+◌, ◌≤◌}
use mathlib.Core.Bool.{Bool, true, false, ◌||◌, ◌&&◌}
use mathlib.Core.List.{List, [], ◌∷◌, ◌++◌, reverse, reverse-append, reverse-reverse}
use mathlib.Core.Logic.{◌⊎◌, inl, inr}
use mathlib.Core.Option.{Option, none, some}
use mathlib.Core.Path.{◌≡◌, refl, sym, ap, subst}
use native.Mathlib.Omega.{arith}
use safe_network_archive.Prelude.Tests.{if◌then◌else◌, Bool-cases, is_some}

module _ {ℓ} {A : Type ℓ} where
  abbrev pub length : List A → ℕ
  length [] = 0
  length (x ∷ xs) = suc (length xs)

  abbrev pub take : ℕ → List A → List A
  take zero xs = []
  take (suc n) [] = []
  take (suc n) (x ∷ xs) = x ∷ take n xs

  -- `Iterator::filter`, and `retain` of a vector.
  unfoldable pub select : (A → Bool) → List A → List A
  select p [] = []
  select p (x ∷ xs) = if p x then x ∷ select p xs else select p xs

  -- `Iterator::any`, `Iterator::all` and `Iterator::find`.
  unfoldable pub any : (A → Bool) → List A → Bool
  any p [] = false
  any p (x ∷ xs) = p x || any p xs

  unfoldable pub all : (A → Bool) → List A → Bool
  all p [] = true
  all p (x ∷ xs) = p x && all p xs

  unfoldable pub find : (A → Bool) → List A → Option A
  find p [] = none
  find p (x ∷ xs) = if p x then some x else find p xs

-- Membership and quantification as predicates that compute.
abbrev pub In : {A : Type 0} → A → List A → Type 0
In a [] = ⊥
In a (x ∷ xs) = (a ≡ x) ⊎ In a xs

abbrev pub All {κ} : {A : Type 0} → (A → Type κ) → List A → Type κ
All P [] = Unit
All P (x ∷ xs) = P x × All P xs

pub length-take-le {ℓ} : {A : Type ℓ} (n : ℕ) (xs : List A) → length (take n xs) ≤ n
length-take-le zero xs = omega arith
length-take-le (suc n) [] = omega arith
length-take-le (suc n) (x ∷ xs) = omega (arith, length-take-le n xs)

pub length-append {ℓ} : {A : Type ℓ} (xs ys : List A) → length (xs ++ ys) ≡ length xs + length ys
length-append [] ys = omega arith
length-append (x ∷ xs) ys = omega (arith, length-append xs ys)

module _ {A : Type 0} (a : A) where
  pub In-take : (n : ℕ) (xs : List A) → In a (take n xs) → In a xs
  In-take zero xs m = absurd m
  In-take (suc n) [] m = m
  In-take (suc n) (x ∷ xs) (inl e) = inl e
  In-take (suc n) (x ∷ xs) (inr m) = inr (In-take n xs m)

  pub In-append : (xs ys : List A) → In a (xs ++ ys) → In a xs ⊎ In a ys
  In-append [] ys m = inr m
  In-append (x ∷ xs) ys (inl e) = inl (inl e)
  In-append (x ∷ xs) ys (inr m) = elim (In-append xs ys m) [ inl h ↦ inl (inr h) | inr h ↦ inr h ]

  pub In-append_left : (xs ys : List A) → In a xs → In a (xs ++ ys)
  In-append_left [] ys m = absurd m
  In-append_left (x ∷ xs) ys (inl e) = inl e
  In-append_left (x ∷ xs) ys (inr m) = inr (In-append_left xs ys m)

  pub In-append_right : (xs ys : List A) → In a ys → In a (xs ++ ys)
  In-append_right [] ys m = m
  In-append_right (x ∷ xs) ys m = inr (In-append_right xs ys m)

-- What `select` keeps: the members that pass the test.
module _ {A : Type 0} (p : A → Bool) (a : A) where
  In-select_head :
      (x : A) (xs : List A)
      → (In a (select p xs) → In a xs × (p a ≡ true))
      → In a (select p (x ∷ xs))
      → In a (x ∷ xs) × (p a ≡ true)
  unfolding select
  In-select_head x xs ih m = elim (Bool-cases (p x)) [
    | inl t ↦ elim (rw (t, select) at m) [
      | inl e ↦ (inl e, rw e t)
      | inr r ↦ (inr (ih r).0, (ih r).1)
    ]
    | inr f ↦ (inr (ih (rw (f, select) at m)).0, (ih (rw (f, select) at m)).1)
  ]

  pub In-select : (xs : List A) → In a (select p xs) → In a xs × (p a ≡ true)
  unfolding select
  In-select [] m = absurd m
  In-select (x ∷ xs) m = In-select_head x xs (In-select xs) m

  pub select-In : (xs : List A) → In a xs → p a ≡ true → In a (select p xs)
  unfolding select
  select-In [] m t = m
  select-In (x ∷ xs) (inl e) t = rw (← e, t, select) (inl refl)
  select-In (x ∷ xs) (inr m) t = elim (Bool-cases (p x)) [
    | inl y ↦ rw (y, select) (inr (select-In xs m t))
    | inr n ↦ rw (n, select) (select-In xs m t)
  ]

-- `find` returns a member that passes; it misses exactly when none passes.
module _ {A : Type 0} (p : A → Bool) where
  pub find-In : (xs : List A) (a : A) → find p xs ≡ some a → In a xs × (p a ≡ true)
  unfolding find
  find-In [] a h = absurd (ground arith)
  find-In (x ∷ xs) a h = elim (Bool-cases (p x)) [
    | inl t ↦ let e : a ≡ x = ground arith in (inl e, rw e t)
    | inr f ↦ let (m, t) = find-In xs a (rw (f, find) at h) in (inr m, t)
  ]

  pub find-none : (xs : List A) (a : A) → find p xs ≡ none → In a xs → p a ≡ false
  unfolding find
  find-none [] a h m = absurd m
  find-none (x ∷ xs) a h (inl e) = rw e (ground arith)
  find-none (x ∷ xs) a h (inr m) = find-none xs a (ground arith) m

  pub is_some-find : (xs : List A) → is_some (find p xs) ≡ any p xs
  unfolding find any
  is_some-find [] = refl
  is_some-find (x ∷ xs) = ground (arith, is_some-find xs)

pub take-length {ℓ} : {A : Type ℓ} (xs : List A) → take (length xs) xs ≡ xs
take-length [] = refl
take-length (x ∷ xs) = ap (◌∷◌ x) (take-length xs)

pub any-append :
    {A : Type 0} (p : A → Bool) (xs ys : List A) → any p (xs ++ ys) ≡ (any p xs || any p ys)
unfolding any
any-append p [] ys = refl
any-append p (x ∷ xs) ys = ground (arith, any-append p xs ys)

pub all-In :
    {A : Type 0} (p : A → Bool) (a : A) (xs : List A) → all p xs ≡ true → In a xs → p a ≡ true
unfolding all
all-In p a [] h m = absurd m
all-In p a (x ∷ xs) h (inl e) = rw e (ground arith)
all-In p a (x ∷ xs) h (inr m) = all-In p a xs (ground arith) m

module _ {A : Type 0} (P : A → Type 0) where
  pub All-append : (xs ys : List A) → All P xs → All P ys → All P (xs ++ ys)
  All-append [] ys h k = k
  All-append (x ∷ xs) ys (p, h) k = (p, All-append xs ys h k)

  pub All-reverse : (xs : List A) → All P xs → All P (reverse xs)
  All-reverse [] h = tt
  All-reverse (x ∷ xs) (p, h) =
      subst (All P) (sym (reverse-append (x ∷ []) xs))
        (All-append (reverse xs) (x ∷ []) (All-reverse xs h) (p, tt))

  pub All-of_reverse : (xs : List A) → All P (reverse xs) → All P xs
  All-of_reverse xs h = subst (All P) (reverse-reverse xs) (All-reverse (reverse xs) h)

  pub All-of_In : (xs : List A) → ((a : A) → In a xs → P a) → All P xs
  All-of_In [] h = tt
  All-of_In (x ∷ xs) h = (h x (inl refl), All-of_In xs (λ a i. h a (inr i)))

  pub All-In : (a : A) (xs : List A) → All P xs → In a xs → P a
  All-In a [] h i = absurd i
  All-In a (x ∷ xs) (p, h) (inl e) = subst P (sym e) p
  All-In a (x ∷ xs) (p, h) (inr i) = All-In a xs h i
