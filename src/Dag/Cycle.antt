-- ===== src/Dag/Cycle.antt =====
-- What becomes of a key of the DAG that is inserted once more, below itself.
use safe_network_archive.Dag.{
  SectionsDag, SectionInfo, key_of, parent_node, get_parent_key, add_node, insert_trusted_key,
  verify_and_insert,
}
use safe_network_archive.Dag.Chain.{IsGrown, get_parent_key_of}
use safe_network_archive.Dag.Walk.{ancestors_loop, get_ancestors}
use safe_network_archive.Extern.{BlsKeys, PublicKey, Signature, keys_ord, MerkleReg}
use safe_network_archive.Extern.Merkle.{Known, lookup_all}
use safe_network_archive.Prelude.{
  ℕ, zero, suc, ◌≡◌, ◌≢◌, refl, ap, ◌∙◌, inl, inr, List, [], ◌∷◌, ◌++◌, none, some, ok, In,
  =?_of_ne, arith, Option-cases, subst,
}
use safe_network_archive.Prelude.Map

module _ ⦃b : BlsKeys⦄ ⦃m : MerkleReg SectionInfo⦄ where
  -- The walk from a key that is its own parent uses up all fuel.
  own_parent_loop :
      (self : SectionsDag) (key : PublicKey)
      → get_parent_key self key ≡ ok (some key)
      → (fuel : ℕ) (line : List PublicKey) → ancestors_loop fuel self key line ≡ none
  unfolding ancestors_loop
  own_parent_loop self key e zero line = refl
  own_parent_loop self key e (suc fuel) line =
      rw (e, ancestors_loop) (own_parent_loop self key e fuel (line ++ key ∷ []))

  module _ (self : SectionsDag) (g : IsGrown self) (key : PublicKey) (sig : Signature) (h : m.Hash)
      (p : m.Node) (at_key : Map.get key self.hashes ≡ some h) (found : m.node self.dag h ≡ some p)
      (same : key_of p ≡ key) (ne : key ≢ self.genesis_key) where
    abbrev child : m.Node
    child = m.write self.dag (record { key = key; sig = sig }) (h ∷ [])

    child-kids : m.children_of child ≡ h ∷ []
    child-kids = m.children_of-write self.dag (record { key = key; sig = sig }) (h ∷ [])

    child-Known : Known (m.node self.dag) (m.children_of child)
    child-Known h' i = below (subst (In h') child-kids i)
      where
        below : (In h' (h ∷ [])) → (n : m.Node) × (m.node self.dag h' ≡ some n)
        below (inl q) = (p, rw q found)
        below (inr j) = absurd j

    -- The node that is found at the old hash afterwards has the same key.
    node_at : (q : m.Node) × (m.node (m.apply child self.dag) h ≡ some q) × (key_of q ≡ key)
    node_at = elim (m.hash_discrete h (m.hash child)) [
      | yes e ↦ (
        child,
        ap (m.node (m.apply child self.dag)) e ∙ m.node-apply_self self.dag child child-Known,
        ap (λ (i : SectionInfo). i.key)
            (m.value-write self.dag (record { key = key; sig = sig }) (h ∷ [])),
      )
      | no d ↦ (p, m.node-apply_ne self.dag child h g.valid.no_orphans child-Known d ∙ found, same)
    ]

    child-parent :
        (q : m.Node)
        → m.node (m.apply child self.dag) h ≡ some q
        → parent_node (add_node self key sig (h ∷ [])) (m.hash child) ≡ some q
    unfolding parent_node add_node lookup_all
    child-parent q e =
        rw
          (
            m.children-node (m.apply child self.dag) (m.hash child) child
                (m.node-apply_self self.dag child child-Known),
            child-kids,
            lookup_all,
            e,
          )
          refl

    own_parent : get_parent_key (add_node self key sig (h ∷ [])) key ≡ ok (some key)
    unfolding add_node
    own_parent =
        let (q, e, k) = node_at in
        get_parent_key_of (add_node self key sig (h ∷ [])) key (m.hash child) (some q) ne
          (Map.get-insert_self key (m.hash child) self.hashes) (child-parent q e)
        ∙ ap (λ k. ok (some k)) k

  -- If a grown DAG accepts a key other than the genesis key below itself, then `get_ancestors` of that
  -- key runs out of every amount of fuel: the loop of the source never ends.
  pub insert_below_itself-loops :
      (self self' : SectionsDag) (key : PublicKey) (sig : Signature) (fuel : ℕ)
      → IsGrown self
      → key ≢ self.genesis_key
      → verify_and_insert self key key sig ≡ ok self'
      → get_ancestors fuel self' key ≡ none
  unfolding get_ancestors verify_and_insert insert_trusted_key
  insert_below_itself-loops self self' key sig fuel g ne e =
      elim (Option-cases (Map.get key self.hashes)) [
        | inl z ↦ absurd (ground (arith, =?_of_ne key self.genesis_key ne))
        | inr (h, z) ↦
            let (p, found, same) = g.valid.noded key h z in
            let d : add_node self key sig (h ∷ []) ≡ self' =
              ground (arith, =?_of_ne key self.genesis_key ne) in
            subst (λ dag. ancestors_loop fuel dag key [] ≡ none) d
              (own_parent_loop (add_node self key sig (h ∷ [])) key
                (own_parent self g key sig h p z found same ne) fuel [])
      ]
