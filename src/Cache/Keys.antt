-- ===== src/Cache/Keys.antt =====
-- The keys of a cache's items, through the sort, the removals and the insertion.
use safe_network_archive.Cache.{Item, elapsed, place_oldest, sort_oldest, remove_keys}
use safe_network_archive.Prelude.Map
use safe_network_archive.Prelude.Sets
use safe_network_archive.Prelude.{
  ℕ, zero, suc, ◌+◌, ◌≤◌, ◌≡◌, refl, ◌∙◌, true, false, ◌||◌, List, [], ◌∷◌, map, leb, length, take,
  Ord, ◌=?◌, ◌<?◌, =?-refl, eq_of_=?, subst, if◌then◌else◌, arith, Bool-cases, inl, inr,
}

module _ {K : Type 0} ⦃o : Ord K⦄ where
  -- No key twice.
  abbrev pub IsDistinct : List K → Type 0
  IsDistinct [] = Unit {0}
  IsDistinct (key ∷ keys) = (Sets.contains key keys ≡ false) × IsDistinct keys

  -- The keys of a `BTreeMap`, in its order.
  abbrev pub IsSorted : List K → Type 0
  IsSorted [] = Unit {0}
  IsSorted (key ∷ keys) =
      ((j : K) → Sets.contains j keys ≡ true → (key <? j) ≡ true) × IsSorted keys

  pub IsSorted-IsDistinct : (keys : List K) → IsSorted keys → IsDistinct keys
  IsSorted-IsDistinct [] d = tt
  IsSorted-IsDistinct (k ∷ keys) d =
      (ground (arith, d.0 k, o.lt_irrefl k), IsSorted-IsDistinct keys d.1)

module _ {K V : Type 0} ⦃o : Ord K⦄ where
  abbrev pub keys_of : List (K × Item V) → List K
  keys_of items = map (λ e. e.0) items

  -- The keys of a sorted list are the keys of the list.
  contains-place :
      (now : ℕ) (e : K × Item V) (items : List (K × Item V)) (j : K)
      → Sets.contains j (keys_of (place_oldest now e items))
        ≡ (e.0 =? j || Sets.contains j (keys_of items))
  unfolding place_oldest Sets.contains
  contains-place now e [] j = refl
  contains-place now e (f ∷ rest) j = ground (arith, contains-place now e rest j)

  place-IsDistinct :
      (now : ℕ) (e : K × Item V) (items : List (K × Item V))
      → Sets.contains e.0 (keys_of items) ≡ false
      → IsDistinct (keys_of items)
      → IsDistinct (keys_of (place_oldest now e items))
  unfolding place_oldest Sets.contains
  place-IsDistinct now e [] n d = (n, d)
  place-IsDistinct now e (f ∷ rest) n d =
      elim (Bool-cases (leb (elapsed now f.1) (elapsed now e.1))) [
        | inl y ↦ rw (y, place_oldest) (n, d)
        | inr z ↦
            rw (z, place_oldest)
              (
                ground (arith, contains-place now e rest f.0, o.beq_iff e.0 f.0, o.beq_iff f.0 e.0),
                place-IsDistinct now e rest (ground arith) d.1,
              )
      ]

  pub contains-sort :
      (now : ℕ) (items : List (K × Item V)) (j : K)
      → Sets.contains j (keys_of (sort_oldest now items)) ≡ Sets.contains j (keys_of items)
  unfolding sort_oldest Sets.contains
  contains-sort now [] j = refl
  contains-sort now (e ∷ rest) j =
      ground (arith, contains-place now e (sort_oldest now rest) j, contains-sort now rest j)

  pub sort-IsDistinct :
      (now : ℕ) (items : List (K × Item V))
      → IsDistinct (keys_of items)
      → IsDistinct (keys_of (sort_oldest now items))
  unfolding sort_oldest
  sort-IsDistinct now [] d = d
  sort-IsDistinct now (e ∷ rest) d =
      place-IsDistinct now e (sort_oldest now rest) (contains-sort now rest e.0 ∙ d.0)
        (sort-IsDistinct now rest d.1)

  pub contains-take :
      (n : ℕ) (items : List (K × Item V)) (j : K)
      → Sets.contains j (keys_of (take n items)) ≡ true
      → Sets.contains j (keys_of items) ≡ true
  unfolding Sets.contains
  contains-take zero items j h = absurd (ground arith)
  contains-take (suc n) [] j h = h
  contains-take (suc n) (e ∷ rest) j h = ground (arith, contains-take n rest j)

  pub take-IsDistinct :
      (n : ℕ) (items : List (K × Item V))
      → IsDistinct (keys_of items)
      → IsDistinct (keys_of (take n items))
  take-IsDistinct zero items d = tt
  take-IsDistinct (suc n) [] d = d
  take-IsDistinct (suc n) (e ∷ rest) d =
      (ground (arith, contains-take n rest e.0), take-IsDistinct n rest d.1)

  contains-remove :
      (k : K) (items : List (K × Item V)) (j : K)
      → Sets.contains j (keys_of (Map.remove k items))
        ≡ (if k =? j then false else Sets.contains j (keys_of items))
  unfolding Map.remove Sets.contains
  contains-remove k [] j = ground arith
  contains-remove k (e ∷ rest) j =
      ground (arith, contains-remove k rest j, o.beq_iff e.0 k, o.beq_iff e.0 j, o.beq_iff k j)

  pub length-remove-le :
      (k : K) (items : List (K × Item V)) → length (Map.remove k items) ≤ length items
  unfolding Map.remove
  length-remove-le k [] = omega arith
  length-remove-le k (e ∷ rest) = ground (arith, length-remove-le k rest)

  length-remove :
      (k : K) (items : List (K × Item V))
      → Sets.contains k (keys_of items) ≡ true
      → length (Map.remove k items) + 1 ≤ length items
  unfolding Map.remove Sets.contains
  length-remove k [] h = absurd (ground arith)
  length-remove k (e ∷ rest) h = ground (arith, length-remove k rest, length-remove-le k rest)

  -- Each of several different present keys takes an item away.
  pub length-remove_keys :
      (keys : List K) (items : List (K × Item V))
      → IsDistinct keys
      → ((j : K) → Sets.contains j keys ≡ true → Sets.contains j (keys_of items) ≡ true)
      → length (remove_keys keys items) + length keys ≤ length items
  unfolding remove_keys Sets.contains
  length-remove_keys [] items d present = omega arith
  length-remove_keys (k ∷ keys) items d present =
      let gone = length-remove k items (present k (ground (arith, =?-refl k))) in
      let rest =
        length-remove_keys keys (Map.remove k items) d.1
          (λ j h. ground (arith, contains-remove k items j, present j, o.beq_iff k j)) in
      omega (arith, gone, rest)

  length-place :
      (now : ℕ) (e : K × Item V) (items : List (K × Item V))
      → length (place_oldest now e items) ≡ length items + 1
  unfolding place_oldest
  length-place now e [] = refl
  length-place now e (f ∷ rest) = ground (arith, length-place now e rest)

  pub length-sort :
      (now : ℕ) (items : List (K × Item V)) → length (sort_oldest now items) ≡ length items
  unfolding sort_oldest
  length-sort now [] = refl
  length-sort now (e ∷ rest) =
      omega (arith, length-place now e (sort_oldest now rest), length-sort now rest)

  pub length-keys :
      (n : ℕ) (items : List (K × Item V)) → n ≤ length items → length (keys_of (take n items)) ≡ n
  length-keys zero items h = refl
  length-keys (suc n) [] h = absurd (omega arith)
  length-keys (suc n) (e ∷ rest) h = omega (arith, length-keys n rest (omega arith))

  remove-IsSorted :
      (k : K) (items : List (K × Item V))
      → IsSorted (keys_of items)
      → IsSorted (keys_of (Map.remove k items))
  unfolding Map.remove
  remove-IsSorted k [] d = d
  remove-IsSorted k (e ∷ rest) d = elim (Bool-cases (e.0 =? k)) [
    | inl y ↦ rw (y, Map.remove) (remove-IsSorted k rest d.1)
    | inr z ↦
        rw (z, Map.remove)
          (λ j h. d.0 j (ground (arith, contains-remove k rest j)), remove-IsSorted k rest d.1)
  ]

  pub remove_keys-IsSorted :
      (keys : List K) (items : List (K × Item V))
      → IsSorted (keys_of items)
      → IsSorted (keys_of (remove_keys keys items))
  unfolding remove_keys
  remove_keys-IsSorted [] items d = d
  remove_keys-IsSorted (k ∷ keys) items d =
      remove_keys-IsSorted keys (Map.remove k items) (remove-IsSorted k items d)

  contains-insert :
      (k : K) (v : Item V) (items : List (K × Item V)) (j : K)
      → Sets.contains j (keys_of (Map.insert k v items))
        ≡ (k =? j || Sets.contains j (keys_of items))
  unfolding Map.insert Sets.contains
  contains-insert k v [] j = refl
  contains-insert k v (e ∷ rest) j =
      ground (arith, contains-insert k v rest j, o.beq_iff e.0 k, o.beq_iff e.0 j, o.beq_iff k j)

  pub insert-IsSorted :
      (k : K) (v : Item V) (items : List (K × Item V))
      → IsSorted (keys_of items)
      → IsSorted (keys_of (Map.insert k v items))
  unfolding Map.insert Sets.contains
  insert-IsSorted k v [] d = (λ j h. absurd (ground arith), tt)
  insert-IsSorted k v (e ∷ rest) d = elim (Bool-cases (e.0 =? k)) [
    | inl y ↦ rw (y, Map.insert) (subst (λ i. IsSorted (i ∷ keys_of rest)) (eq_of_=? e.0 k y) d)
    | inr n ↦ elim (Bool-cases (k <? e.0)) [
      | inl y ↦
          rw (n, Map.insert, y)
            (
              λ j h. elim (Bool-cases (e.0 =? j)) [
                | inl q ↦ rw (← eq_of_=? e.0 j q) y
                | inr q ↦ o.lt_trans k e.0 j y (d.0 j (ground arith))
              ],
              d,
            )
      | inr z ↦
          rw (n, Map.insert, z)
            (
              λ j h. elim (Bool-cases (k =? j)) [
                | inl q ↦ rw (← eq_of_=? k j q) (ground (arith, o.lt_total e.0 k, o.beq_iff e.0 k))
                | inr q ↦ d.0 j (ground (arith, contains-insert k v rest j))
              ],
              insert-IsSorted k v rest d.1,
            )
    ]
  ]
