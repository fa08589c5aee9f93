-- ===== src/Dag/Keep.antt =====
-- A signed insertion of a new key leaves the parents of the other keys as they are.
use safe_network_archive.Dag.{
  SectionsDag, SectionInfo, verify_sig, has_key, get_parent_key, add_node, insert_trusted_key,
  verify_and_insert, parent_node,
}
use safe_network_archive.Dag.Chain.{IsGrown, get_parent_key-kept, get_parent_key_genesis}
use safe_network_archive.Dag.Grow.{
  with_root, with_root-IsGrown, fresh_key, not_genesis, parent_signed, Known-one,
}
use safe_network_archive.Dag.Valid.{IsValid, SignedBy}
use safe_network_archive.Extern.{BlsKeys, PublicKey, Signature, keys_ord, MerkleReg}
use safe_network_archive.Extern.Merkle.{Known}
use safe_network_archive.Prelude.{
  ◌≡◌, ◌≢◌, refl, sym, subst, ◌∙◌, inl, inr, true, false, List, [], ◌∷◌, none, some, ok, ◌=?◌,
  eq_of_=?, arith, Bool-cases, Option-cases,
}
use safe_network_archive.Prelude.Map
use safe_network_archive.Prelude.Sets

module _ ⦃b : BlsKeys⦄ ⦃m : MerkleReg SectionInfo⦄ where
  abbrev pub KeepsParents : SectionsDag → SectionsDag → Type 0
  KeepsParents self self' =
      (self'.genesis_key ≡ self.genesis_key)
      × ((k : PublicKey) → has_key self k ≡ true → get_parent_key self' k ≡ get_parent_key self k)

  add_node-KeepsParents :
      (self : SectionsDag) (v : IsValid self) (key : PublicKey) (sig : Signature)
      (kids : List m.Hash)
      → Map.get key self.hashes ≡ none
      → key ≢ self.genesis_key
      → Known (m.node self.dag) kids
      → SignedBy self key sig kids
      → KeepsParents self (add_node self key sig kids)
  unfolding has_key Map.contains_key add_node
  add_node-KeepsParents self v key sig kids fresh ne known s = (
    refl,
    λ k has. elim (Bool-cases (k =? self.genesis_key)) [
      | inl y ↦
          let root = eq_of_=? k self.genesis_key y in
          get_parent_key_genesis (add_node self key sig kids) k root
          ∙ sym (get_parent_key_genesis self k root)
      | inr z ↦ elim (Option-cases (Map.get k self.hashes)) [
        | inl absent ↦ absurd (ground arith)
        | inr (h, there) ↦ get_parent_key-kept self v key sig kids fresh ne known s k h there
      ]
    ],
  )

  module _ (self : SectionsDag) (g : IsGrown self) (parent key : PublicKey) (sig : Signature)
      (absent : has_key self key ≡ false) where
    below_genesis :
        verify_sig parent key sig ≡ true
        → parent ≡ self.genesis_key
        → KeepsParents self (add_node (with_root self (Sets.insert key self.dag_root)) key sig [])
    unfolding get_parent_key has_key parent_node
    below_genesis signed e =
        let r = Sets.insert key self.dag_root in
        add_node-KeepsParents (with_root self r) (with_root-IsGrown self r g).valid key sig []
          (fresh_key self g parent key sig absent signed)
          (not_genesis self g parent key sig absent signed) (λ h i. absurd i)
          (inl (refl, rw (← e) signed))

    below_key :
        verify_sig parent key sig ≡ true
        → (h : m.Hash) → Map.get parent self.hashes ≡ some h
        → KeepsParents self (add_node self key sig (h ∷ []))
    below_key signed h e =
        let (p, f, q) = g.valid.noded parent h e in
        add_node-KeepsParents self g.valid key sig (h ∷ [])
          (fresh_key self g parent key sig absent signed)
          (not_genesis self g parent key sig absent signed)
          (Known-one self g parent key sig absent signed h p f)
          (parent_signed self g parent key sig absent signed h p f q)

    pub verify_and_insert-KeepsParents :
        (self' : SectionsDag)
        → verify_and_insert self parent key sig ≡ ok self'
        → KeepsParents self self'
    unfolding verify_and_insert insert_trusted_key
    verify_and_insert-KeepsParents self' e = elim (Bool-cases (verify_sig parent key sig)) [
      | inr n ↦ absurd (ground arith)
      | inl signed ↦ elim (Bool-cases (parent =? self.genesis_key)) [
        | inl y ↦
            let here : add_node (with_root self (Sets.insert key self.dag_root)) key sig []
                ≡ self' =
              ground arith in
            subst (KeepsParents self) here
              (below_genesis signed (eq_of_=? parent self.genesis_key y))
        | inr n ↦ elim (Option-cases (Map.get parent self.hashes)) [
          | inl z ↦ absurd (ground arith)
          | inr (h, z) ↦
              let here : add_node self key sig (h ∷ []) ≡ self' = ground arith in
              subst (KeepsParents self) here (below_key signed h z)
        ]
      ]
    ]
