-- ===== src/Dag/Ancestors.antt =====
-- The walks over a branch end with enough fuel: `get_ancestors` returns the signed chain to the
-- genesis key, and `self_verify` accepts every DAG that grew by signed insertions.
use mathlib.Core.List.{append-nil, append_assoc}
use safe_network_archive.Dag.{
  SectionsDag, SectionInfo, key_of, sig_of, verify_sig, has_key, get_parent_key, get_node,
  non_genesis_leaf_sections,
}
use safe_network_archive.Dag.Chain.{IsGrown, Lineage, root, child, get_parent_key_genesis}
use safe_network_archive.Dag.Walk.{
  ancestors_loop, get_ancestors, verify_branch, verify_leaves, self_verify,
}
use safe_network_archive.Extern.{BlsKeys, PublicKey, keys_ord, MerkleReg}
use safe_network_archive.Prelude.{
  ℕ, zero, suc, ◌≡◌, refl, ap, ◌∙◌, inl, inr, ◌≤◌, ◌<◌, true, false, List, [], ◌∷◌, ◌++◌, map, some,
  ok, ◌=?◌, =?-refl, eq_of_=?, length, In, arith, Bool-cases, Option-cases,
}
use safe_network_archive.Prelude.Map
use safe_network_archive.Prelude.Sets

module _ ⦃b : BlsKeys⦄ ⦃m : MerkleReg SectionInfo⦄ (self : SectionsDag) where
  ancestors_loop-Lineage :
      (fuel : ℕ) (k : PublicKey) (line acc : List PublicKey)
      → Lineage self k line
      → length line < fuel
      → ancestors_loop fuel self k acc ≡ some (ok (acc ++ line))
  unfolding ancestors_loop
  ancestors_loop-Lineage zero k line acc l h = absurd (omega arith)
  ancestors_loop-Lineage (suc fuel) k line acc (root _ e) h =
      rw (get_parent_key_genesis self k e, ancestors_loop, append-nil)
  ancestors_loop-Lineage (suc fuel) k line acc (child _ p n line' e f g l) h = rw (
    e,
    ancestors_loop,
    ancestors_loop-Lineage fuel p line' (acc ++ p ∷ []) l (omega arith),
    append_assoc,
  )

  -- Every key of a grown DAG has its chain.
  has_key-Lineage :
      (k : PublicKey)
      → IsGrown self
      → has_key self k ≡ true
      → (line : List PublicKey) × Lineage self k line × (length line ≤ length self.hashes)
  unfolding has_key Map.contains_key
  has_key-Lineage k g h = elim (Bool-cases (k =? self.genesis_key)) [
    | inl y ↦ ([], root k (eq_of_=? k self.genesis_key y), omega arith)
    | inr n ↦ elim (Option-cases (Map.get k self.hashes)) [
      | inl z ↦ absurd (ground arith)
      | inr (c, z) ↦ g.lineage k c z
    ]
  ]

  -- For a key of a grown DAG, with one round more than the DAG has keys, `get_ancestors` returns the
  -- chain of its signers: it ends at the genesis key and each key is signed by the next.
  pub get_ancestors-Lineage :
      (fuel : ℕ) (k : PublicKey)
      → IsGrown self
      → has_key self k ≡ true
      → length self.hashes < fuel
      → (line : List PublicKey) × Lineage self k line × (get_ancestors fuel self k ≡ some (ok line))
  unfolding get_ancestors
  get_ancestors-Lineage fuel k g h enough =
      let (line, l, bound) = has_key-Lineage k g h in
      (line, l, ancestors_loop-Lineage fuel k line [] l (omega arith))

  abbrev GenesisVerified : List PublicKey → Type 0
  GenesisVerified verified = Sets.contains self.genesis_key verified ≡ true

  genesis-insert :
      (k : PublicKey) (verified : List PublicKey)
      → GenesisVerified verified
      → GenesisVerified (Sets.insert k verified)
  genesis-insert k verified h = ground (arith, Sets.contains-insert k self.genesis_key verified)

  -- One round of the loop at a key whose parent is known and signed it.
  module _ (fuel : ℕ) (k p : PublicKey) (n : m.Node) (verified : List PublicKey)
      (e : get_parent_key self k ≡ ok (some p)) (f : get_node self k ≡ ok n)
      (s : verify_sig p k (sig_of n) ≡ true) where
    verify_round_stop :
        Sets.contains p (Sets.insert k verified) ≡ true
        → verify_branch (suc fuel) self verified k ≡ some (true, Sets.insert k verified)
    unfolding verify_branch
    verify_round_stop y = rw (e, verify_branch, f, s, y)

    verify_round_next :
        Sets.contains p (Sets.insert k verified) ≡ false
        → verify_branch (suc fuel) self verified k
          ≡ verify_branch fuel self (Sets.insert k verified) p
    unfolding verify_branch
    verify_round_next y = rw (e, verify_branch, f, s, y)

  verify_branch-Lineage :
      (fuel : ℕ) (k p : PublicKey) (line verified : List PublicKey)
      → Lineage self k (p ∷ line)
      → GenesisVerified verified
      → length line < fuel
      → (verified' : List PublicKey) × (verify_branch fuel self verified k ≡ some (true, verified'))
        × GenesisVerified verified'
  verify_branch-Lineage zero k p line verified l v h = absurd (omega arith)
  verify_branch-Lineage (suc fuel) k p line verified (child _ _ n _ e f s (root _ r)) v h = (
    Sets.insert k verified,
    verify_round_stop fuel k p n verified e f s (rw r (genesis-insert k verified v)),
    genesis-insert k verified v,
  )
  verify_branch-Lineage (suc fuel) k p line verified
        (child _ _ n _ e f s (child _ q n' line' e' f' s' l)) v h =
      elim (Bool-cases (Sets.contains p (Sets.insert k verified))) [
        | inl y ↦ (
          Sets.insert k verified,
          verify_round_stop fuel k p n verified e f s y,
          genesis-insert k verified v,
        )
        | inr z ↦
            let (verified', w, v') =
              verify_branch-Lineage fuel p q line' (Sets.insert k verified)
                (child p q n' line' e' f' s' l) (genesis-insert k verified v) (omega arith) in
            (verified', verify_round_next fuel k p n verified e f s z ∙ w, v')
      ]

  -- A leaf is a node of the register, so its chain has a parent.
  leaf-Lineage :
      (n : m.Node)
      → IsGrown self
      → In n (m.read self.dag)
      → (p : PublicKey) × (line : List PublicKey) × Lineage self (key_of n) (p ∷ line)
        × (length line < length self.hashes)
  leaf-Lineage n g i =
      let keyed = g.valid.keyed (m.hash n) n ((m.read_iff self.dag n).0 i).0 in
      let (line, l, bound) = g.lineage (key_of n) (m.hash n) keyed in split line l bound keyed
    where
      split :
          (line : List PublicKey)
          → Lineage self (key_of n) line
          → length line ≤ length self.hashes
          → Map.get (key_of n) self.hashes ≡ some (m.hash n)
          → (p : PublicKey) × (line : List PublicKey) × Lineage self (key_of n) (p ∷ line)
            × (length line < length self.hashes)
      split line (root _ e) bound keyed =
          absurd (cc (g.valid.no_genesis, ap (λ k. Map.get k self.hashes) e))
      split line (child _ p n' line' e f s l) bound keyed =
          (p, line', child (key_of n) p n' line' e f s l, omega arith)

  verify_leaves-grown :
      (fuel : ℕ) (ns : List m.Node) (verified : List PublicKey)
      → IsGrown self
      → ((n : m.Node) → In n ns → In n (m.read self.dag))
      → GenesisVerified verified
      → length self.hashes < fuel
      → verify_leaves fuel self verified (map m.value ns) ≡ some true
  unfolding verify_leaves
  verify_leaves-grown fuel [] verified g i v h = refl
  verify_leaves-grown fuel (n ∷ ns) verified g i v h =
      let (p, line, l, bound) = leaf-Lineage n g (i n (inl refl)) in
      let (verified', w, v') =
        verify_branch-Lineage fuel (key_of n) p line verified l v (omega arith) in
      rw (w, verify_leaves) (verify_leaves-grown fuel ns verified' g (λ n' j. i n' (inr j)) v' h)

  -- A grown DAG passes `self_verify`, with one round more than the DAG has keys.
  pub self_verify-IsGrown :
      (fuel : ℕ) → IsGrown self → length self.hashes < fuel → self_verify fuel self ≡ some true
  unfolding self_verify non_genesis_leaf_sections Sets.contains
  self_verify-IsGrown fuel g h =
      verify_leaves-grown fuel (m.read self.dag) (self.genesis_key ∷ []) g (λ n i. i)
        (ground (arith, =?-refl self.genesis_key)) h
