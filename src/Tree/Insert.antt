-- ===== src/Tree/Insert.antt =====
-- What `SectionTree::insert` does to every prefix, and that no known prefix extends another.
use safe_network_archive.Dag.{SectionInfo}
use safe_network_archive.Extern.{BlsKeys, XorNames, Prefix, Triggers, MerkleReg}
use safe_network_archive.Prelude.{
  Ord, ℕ, zero, suc, ◌<◌, ◌≡◌, refl, ap, ◌⊎◌, inl, inr, Bool, true, false, ◌||◌, [], ◌∷◌, none,
  some, ◌=?◌, any, if◌then◌else◌, arith, Bool-cases, ok, eq_of_=?, =?-refl,
}
use safe_network_archive.Prelude.Map
use safe_network_archive.Sap.{SignedSap}
use safe_network_archive.Tree.{
  SectionTree, Sections, sap_prefix, prune_loop, prune, insert, prefix_order, new,
}

module _ ⦃b : BlsKeys⦄ ⦃m : MerkleReg SectionInfo⦄ ⦃x : XorNames⦄ ⦃t : Triggers⦄ where
  instance abbrev prefixes : Ord x.Prefix
  prefixes = x.prefix_ord

  -- `p` is `q` or extends it.
  abbrev pub covers : Prefix → Prefix → Bool
  covers p q = p =? q || x.is_extension_of p q

  covers-empty : (p q : Prefix) → x.is_empty p ≡ true → x.is_extension_of p q ≡ false
  covers-empty p q e = elim (Bool-cases (x.is_extension_of p q)) [
    | inl y ↦ absurd (omega (arith, x.extension_longer p q y, x.bit_count_of_empty p e))
    | inr n ↦ n
  ]

  extension-covers :
      (p q : Prefix) → x.is_empty p ≡ false → x.is_extension_of p q ≡ covers (x.popped p) q
  extension-covers p q e = elim (Bool-cases (x.is_extension_of p q)) [
    | inl y ↦ elim (x.extension_popped p q y) [
      | inl r ↦ ground (arith, x.prefix_ord.beq_iff (x.popped p) q)
      | inr r ↦ ground arith
    ]
    | inr n ↦ ground (
      arith,
      x.prefix_ord.beq_iff (x.popped p) q,
      x.popped_extension p e,
      x.extension_trans p (x.popped p) q,
    )
  ]

  not_extension_self : (p q : Prefix) → (p =? q) ≡ true → x.is_extension_of p q ≡ false
  not_extension_self p q e = elim (Bool-cases (x.is_extension_of p q)) [
    | inl y ↦ absurd (omega (arith, x.extension_longer p q y, ap x.bit_count (eq_of_=? p q e)))
    | inr n ↦ n
  ]

  -- `prune` removes a prefix and all that it extends, and nothing else.
  prune_loop-get :
      (fuel : ℕ) (p q : Prefix) (s : Sections)
      → x.bit_count p < fuel
      → Map.get q (prune_loop fuel s p) ≡ (if covers p q then none else Map.get q s)
  unfolding prune_loop
  prune_loop-get zero p q s h = absurd (omega arith)
  prune_loop-get (suc fuel) p q s h = elim (Bool-cases (x.is_empty p)) [
    | inl e ↦ rw (e, prune_loop) (ground (arith, Map.get-remove p q s, covers-empty p q e))
    | inr e ↦
        rw (e, prune_loop)
          (ground (
            arith,
            prune_loop-get fuel (x.popped p) q (Map.remove p s)
                (omega (arith, x.bit_count-popped p e)),
            Map.get-remove p q s,
            extension-covers p q e,
          ))
  ]

  pub prune-get :
      (p q : Prefix) (s : Sections)
      → Map.get q (prune s p) ≡ (if covers p q then none else Map.get q s)
  unfolding prune
  prune-get p q s = prune_loop-get (suc (x.bit_count p)) p q s (omega arith)

  -- A known prefix that extends the one of the new section.
  abbrev pub has_extension : SectionTree → SignedSap → Bool
  has_extension self sap = any (λ e. x.is_extension_of e.0 (sap_prefix sap)) self.sections

  module _ (self : SectionTree) (sap : SignedSap) where
    -- With a known extension nothing changes.
    pub insert-dropped : has_extension self sap ≡ true → insert self sap ≡ (self, false)
    unfolding insert
    insert-dropped h = ground arith

    -- If no known prefix extends the new section's, the section is entered under its prefix, the
    -- prefixes that its prefix extends are removed, and every other prefix and the DAG stay.
    pub insert-get :
        (q : Prefix)
        → has_extension self sap ≡ false
        → ((insert self sap).1 ≡ true)
          × (SectionTree.sections_dag (insert self sap).0 ≡ self.sections_dag)
          × (Map.get q (SectionTree.sections (insert self sap).0) ≡ (
              if sap_prefix sap =? q
              then some sap
              else if x.is_extension_of (sap_prefix sap) q
              then none
              else Map.get q self.sections))
    unfolding insert
    insert-get q h = elim (Bool-cases (x.is_empty (sap_prefix sap))) [
      | inl e ↦
          rw (h, insert, e)
            (
              refl,
              refl,
              ground (
                arith,
                Map.get-insert (sap_prefix sap) q sap self.sections,
                covers-empty (sap_prefix sap) q e,
              ),
            )
      | inr e ↦
          rw (h, insert, e)
            (
              refl,
              refl,
              ground (
                arith,
                prune-get (x.popped (sap_prefix sap)) q
                    (Map.insert (sap_prefix sap) sap self.sections),
                Map.get-insert (sap_prefix sap) q sap self.sections,
                extension-covers (sap_prefix sap) q e,
                not_extension_self (sap_prefix sap) q,
              ),
            )
    ]

  -- `insert` says whether it entered the section, and changes no section when it did not.
  pub insert-entered :
      (self : SectionTree) (sap : SignedSap)
      → (insert self sap).1 ≡ true
      → has_extension self sap ≡ false
  insert-entered self sap h = elim (Bool-cases (has_extension self sap)) [
    | inl y ↦ absurd (cc (ap (λ r. r.1) (insert-dropped self sap y)))
    | inr n ↦ n
  ]

  pub insert-ok_false :
      (self : SectionTree) (sap : SignedSap)
      → (insert self sap).1 ≡ false
      → SectionTree.sections (insert self sap).0 ≡ self.sections
  insert-ok_false self sap h = elim (Bool-cases (has_extension self sap)) [
    | inl y ↦ ap (λ r. SectionTree.sections r.0) (insert-dropped self sap y)
    | inr n ↦ absurd (cc (insert-get self sap (sap_prefix sap) n).0)
  ]

  -- No known prefix extends another.
  abbrev pub IsDisjoint : Sections → Type 0
  IsDisjoint s =
      (p q : Prefix) (a c : SignedSap)
      → Map.get p s ≡ some a
      → Map.get q s ≡ some c
      → x.is_extension_of p q ≡ false

  module _ (self : SectionTree) (sap : SignedSap) (d : IsDisjoint self.sections)
      (h : has_extension self sap ≡ false) where
    not_extended :
        (p : Prefix) (a : SignedSap)
        → Map.get p self.sections ≡ some a
        → x.is_extension_of p (sap_prefix sap) ≡ false
    not_extended p a e =
        Map.any-get (λ e. x.is_extension_of e.0 (sap_prefix sap)) p a self.sections h e

    -- What is known afterwards is the new section, or was known and is not extended by it.
    inserted-entry :
        (q : Prefix) (c : SignedSap)
        → Map.get q (SectionTree.sections (insert self sap).0) ≡ some c
        → (sap_prefix sap ≡ q)
          ⊎ ((x.is_extension_of (sap_prefix sap) q ≡ false) × (Map.get q self.sections ≡ some c))
    inserted-entry q c e = elim (Bool-cases (sap_prefix sap =? q)) [
      | inl y ↦ inl (eq_of_=? (sap_prefix sap) q y)
      | inr z ↦
          inr (ground (arith, insert-get self sap q h), ground (arith, insert-get self sap q h))
    ]

    inserted-IsDisjoint : IsDisjoint (SectionTree.sections (insert self sap).0)
    inserted-IsDisjoint p q a c e f = elim (inserted-entry p a e) [
      | inl r ↦ elim (inserted-entry q c f) [
        | inl s ↦ not_extension_self p q (rw (← r, ← s) (=?-refl (sap_prefix sap)))
        | inr (s, g) ↦ rw (← r) s
      ]
      | inr (r, k) ↦ elim (inserted-entry q c f) [
        | inl s ↦ rw (← s) (not_extended p a k)
        | inr (s, g) ↦ d p q a c k g
      ]
    ]

  -- If no known prefix extends another, that is so after `insert` too.
  pub insert-IsDisjoint :
      (self : SectionTree) (sap : SignedSap)
      → IsDisjoint self.sections
      → IsDisjoint (SectionTree.sections (insert self sap).0)
  insert-IsDisjoint self sap d = elim (Bool-cases (has_extension self sap)) [
    | inl y ↦ rw (insert-dropped self sap y) d
    | inr z ↦ inserted-IsDisjoint self sap d z
  ]

  one_prefix : (d p : Prefix) (s a : SignedSap) → Map.get p ((d, s) ∷ []) ≡ some a → (d =? p) ≡ true
  unfolding Map.get
  one_prefix d p s a e = ground arith

  -- In a tree that `SectionTree::new` makes no known prefix extends another.
  pub new-IsDisjoint :
      (genesis_sap : SignedSap) (self : SectionTree)
      → new genesis_sap ≡ ok self
      → IsDisjoint self.sections
  unfolding new
  new-IsDisjoint genesis_sap self h p q a c e f =
      let same : (x.default, genesis_sap) ∷ [] ≡ self.sections = ground arith in
      let y = one_prefix x.default p genesis_sap a (rw same e) in
      covers-empty p q (rw (← eq_of_=? x.default p y) x.is_empty-default)
