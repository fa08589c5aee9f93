-- ===== src/Membership/Sizes.antt =====
-- The sizes of a section, of its halves and of its majorities.
use safe_network_archive.Extern.{XorNames, XorName, Prefix, names_ord}
use safe_network_archive.Membership.{
  EnvVar, elder_count, recommended_section_size, threshold, supermajority, partition_by_prefix,
  section_has_room_for_node,
}
use safe_network_archive.Prelude.Sets
use safe_network_archive.Prelude.{
  ℕ, ◌+◌, ◌-◌, ◌*◌, ◌≤◌, ◌<◌, ◌≡◌, Bool, true, false, not, ◌&&◌, List, [], ◌∷◌, Option, some, ltb,
  select, length, arith, Bool-cases, inl, inr, Ord,
}

-- Two supermajorities of a group share more than a third of it, and a group that is not empty has
-- one.
pub supermajority-overlap :
    (group_size p q : ℕ)
    → supermajority group_size ≤ p
    → supermajority group_size ≤ q
    → (group_size < 3 * (p + q - group_size))
      × (0 < group_size → supermajority group_size ≤ group_size)
unfolding supermajority threshold
supermajority-overlap group_size p q h k = (omega arith, λ pos. omega arith)

module _ {A : Type 0} ⦃o : Ord A⦄ where
  length-insert-le : (a : A) (xs : List A) → length (Sets.insert a xs) ≤ length xs + 1
  unfolding Sets.insert
  length-insert-le a [] = omega arith
  length-insert-le a (y ∷ xs) = ground (arith, length-insert-le a xs)

some_pair :
    {A B : Type 0} {a c : A} {b d : B}
    → ◌≡◌ {A = Option (A × B)} (some (a, b)) (some (c, d))
    → (a ≡ c) × (b ≡ d)
some_pair h = (ground arith, ground arith)

module _ ⦃x : XorNames⦄ where
  contains-half :
      (p : XorName → Bool) (prefix : Prefix) (nodes : List XorName) (n : XorName)
      → Sets.contains n (Sets.from_iter (select p (select (λ name. x.matches prefix name) nodes)))
        ≡ (Sets.contains n nodes && (x.matches prefix n && p n))
  contains-half p prefix nodes n =
      let inside = λ (name : XorName). x.matches prefix name in
      rw
        (
          Sets.contains-from_iter n (select p (select inside nodes)),
          Sets.contains-select p n (select inside nodes),
          Sets.contains-select inside n nodes,
        )
        (ground arith)

  -- `partition_by_prefix` splits the names of the prefix by the bit after it: each name that
  -- matches is in the half of its bit, and nothing else is in either.
  pub contains-partition_by_prefix :
      (prefix : Prefix) (nodes zeros ones : List XorName) (n : XorName)
      → partition_by_prefix prefix nodes ≡ some (zeros, ones)
      → (Sets.contains n zeros
          ≡ (Sets.contains n nodes && (x.matches prefix n && not (x.bit n (x.bit_count prefix)))))
        × (Sets.contains n ones
            ≡ (Sets.contains n nodes && (x.matches prefix n && x.bit n (x.bit_count prefix))))
  unfolding partition_by_prefix
  contains-partition_by_prefix prefix nodes zeros ones n h =
      let i = x.bit_count prefix in
      elim (Bool-cases (ltb i 256)) [
        | inr z ↦ absurd (ground arith)
        | inl y ↦
            let e = some_pair (rw y at h) in
            (
              rw (← e.0) (contains-half (λ name. not (x.bit name i)) prefix nodes n),
              rw (← e.1) (contains-half (λ name. x.bit name i) prefix nodes n),
            )
      ]

  abbrev pub half : Bool → List XorName × List XorName → List XorName
  half true halves = halves.1
  half false halves = halves.0

  length-half :
      (p : XorName → Bool) (prefix : Prefix) (j : XorName) (members : List XorName)
      → length (Sets.from_iter (select p (select (λ name. x.matches prefix name) (j ∷ members))))
        ≤ length (Sets.from_iter (select p (select (λ name. x.matches prefix name) members))) + 1
  unfolding select Sets.from_iter
  length-half p prefix j members =
      let rest = Sets.from_iter (select p (select (λ name. x.matches prefix name) members)) in
      ground (arith, length-insert-le j rest)

  -- A node for which there is room leaves its half of the section, when it joins, within four
  -- times the number of elders.
  pub section_has_room_for_node-bound :
      (env : EnvVar) (joining_node : XorName) (prefix : Prefix) (members : List XorName)
      (halves : List XorName × List XorName)
      → section_has_room_for_node env joining_node prefix members ≡ true
      → partition_by_prefix prefix (joining_node ∷ members) ≡ some halves
      → length (half (x.bit joining_node (x.bit_count prefix)) halves) ≤ 4 * elder_count env
  unfolding section_has_room_for_node partition_by_prefix recommended_section_size
  section_has_room_for_node-bound env joining_node prefix members halves h e =
      let i = x.bit_count prefix in
      ground (
        arith,
        length-half (λ name. x.bit name i) prefix joining_node members,
        length-half (λ name. not (x.bit name i)) prefix joining_node members,
      )
