-- ===== src/Prelude/Map.antt =====
-- `BTreeMap`: an association list that its operations keep in the order of its keys.
use Prim.Native.Nat.{suc}
use mathlib.Core.Bool.{Bool, false}
use mathlib.Core.List.{List, [], ◌∷◌}
use mathlib.Core.Logic.{◌⊎◌, inl, inr}
use mathlib.Core.Option.{Option, none, some}
use mathlib.Core.Path.{◌≡◌, refl}
use native.Mathlib.Omega.{arith}
use safe_network_archive.Prelude.Tests.{if◌then◌else◌, Bool-cases, is_some}
use safe_network_archive.Prelude.Lists.{length, any, In}
use safe_network_archive.Prelude.Order.{Ord, ◌=?◌, ◌<?◌, =?-refl, eq_of_=?}

module _ {K V : Type 0} ⦃o : Ord K⦄ where
  unfoldable pub get : K → List (K × V) → Option V
  get k [] = none
  get k ((j, v) ∷ m) = if j =? k then some v else get k m

  unfoldable pub insert : K → V → List (K × V) → List (K × V)
  insert k v [] = (k, v) ∷ []
  insert k v ((j, w) ∷ m) =
      if j =? k then (k, v) ∷ m else if k <? j then (k, v) ∷ (j, w) ∷ m else (j, w) ∷ insert k v m

  unfoldable pub remove : K → List (K × V) → List (K × V)
  remove k [] = []
  remove k ((j, v) ∷ m) = if j =? k then remove k m else (j, v) ∷ remove k m

  unfoldable pub contains_key : K → List (K × V) → Bool
  contains_key k m = is_some (get k m)

  -- No key stands twice, as in every map.
  abbrev pub Distinct : List (K × V) → Type 0
  Distinct [] = Unit
  Distinct ((k, v) ∷ m) = (get k m ≡ none) × Distinct m

  -- The entry of one map, or else of another.
  abbrev pub get_or : K → List (K × V) → Option V → Option V
  get_or k m other = elim (get k m) [ none ↦ other | some v ↦ some v ]

  pub get-insert :
      (k j : K) (v : V) (m : List (K × V))
      → get j (insert k v m) ≡ (if k =? j then some v else get j m)
  unfolding get insert
  get-insert k j v [] = refl
  get-insert k j v ((i, w) ∷ m) =
      ground (arith, o.beq_iff i k, o.beq_iff i j, o.beq_iff k j, get-insert k j v m)

  pub get-remove :
      (k j : K) (m : List (K × V)) → get j (remove k m) ≡ (if k =? j then none else get j m)
  unfolding get remove
  get-remove k j [] = ground arith
  get-remove k j ((i, w) ∷ m) =
      ground (arith, o.beq_iff i k, o.beq_iff i j, o.beq_iff k j, get-remove k j m)

  pub remove-Distinct : (k : K) (m : List (K × V)) → Distinct m → Distinct (remove k m)
  unfolding remove
  remove-Distinct k [] h = h
  remove-Distinct k ((j, v) ∷ m) (fresh, h) = elim (Bool-cases (j =? k)) [
    | inl same ↦ ground (arith, remove-Distinct k m h)
    | inr other ↦ ground (arith, remove-Distinct k m h, get-remove k j m)
  ]

  pub get-insert_self : (k : K) (v : V) (m : List (K × V)) → get k (insert k v m) ≡ some v
  get-insert_self k v m = rw (get-insert k k v m, =?-refl k)

  pub length-insert_new :
      (k : K) (v : V) (m : List (K × V)) → get k m ≡ none → length (insert k v m) ≡ suc (length m)
  unfolding get insert
  length-insert_new k v [] h = refl
  length-insert_new k v ((i, w) ∷ m) h = elim (Bool-cases (i =? k)) [
    | inl y ↦ absurd (ground arith)
    | inr n ↦ elim (Bool-cases (k <? i)) [
      | inl y ↦ rw (n, insert, y)
      | inr z ↦ rw (n, insert, z) (omega (arith, length-insert_new k v m (ground arith)))
    ]
  ]

  -- A test that no entry passes fails at what `get` finds.
  pub any-get :
      (p : K × V → Bool) (k : K) (v : V) (m : List (K × V))
      → any p m ≡ false
      → get k m ≡ some v
      → p (k, v) ≡ false
  unfolding any get
  any-get p k v [] n h = absurd (ground arith)
  any-get p k v ((j, w) ∷ m) n h = elim (Bool-cases (j =? k)) [
    | inl y ↦ let e : w ≡ v = ground arith in rw (← eq_of_=? j k y, ← e) (ground arith)
    | inr z ↦ any-get p k v m (ground arith) (ground arith)
  ]

  -- An entry after an insertion is the new one, or was there.
  pub In-insert :
      (e : K × V) (k : K) (v : V) (m : List (K × V)) → In e (insert k v m) → (e ≡ (k, v)) ⊎ In e m
  unfolding insert
  In-insert e k v [] i = i
  In-insert e k v ((j, w) ∷ m) i = elim (Bool-cases (j =? k)) [
    | inl y ↦ elim (rw (y, insert) at i) [ inl p ↦ inl p | inr r ↦ inr (inr r) ]
    | inr n ↦ elim (Bool-cases (k <? j)) [
      | inl y ↦ rw (n, insert, y) at i
      | inr z ↦ elim (rw (n, insert, z) at i) [
        | inl p ↦ inr (inl p)
        | inr r ↦ elim (In-insert e k v m r) [ inl p ↦ inl p | inr q ↦ inr (inr q) ]
      ]
    ]
  ]
