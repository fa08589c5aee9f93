-- ===== src/Dag/Extend.antt =====
-- An insertion below the tip of a branch: the new key is the tip.
use safe_network_archive.Dag.{
  SectionsDag, SectionInfo, key_of, verify_sig, has_key, insert_trusted_key, add_node,
}
use safe_network_archive.Dag.Chain.{IsGrown}
use safe_network_archive.Dag.Grow.{with_root, with_root-IsGrown, fresh_key, not_genesis, Known-one}
use safe_network_archive.Dag.Tip.{IsTip, first-IsTip, next-IsTip}
use safe_network_archive.Dag.Valid.{written, written-key}
use safe_network_archive.Extern.{BlsKeys, PublicKey, Signature, keys_ord, MerkleReg}
use safe_network_archive.Prelude.{
  ◌≡◌, ◌≢◌, refl, ap, subst, ◌⊎◌, inl, inr, true, false, [], ◌∷◌, none, some, ok, ◌=?◌, eq_of_=?,
  arith, Bool-cases, Option-cases,
}
use safe_network_archive.Prelude.Map
use safe_network_archive.Prelude.Sets

-- The DAG has no node yet and the key is its genesis key, or the key is the tip's.
module _ ⦃b : BlsKeys⦄ ⦃m : MerkleReg SectionInfo⦄ where
  abbrev pub Tipped : SectionsDag → PublicKey → Type 0
  Tipped dag parent =
      ((parent ≡ dag.genesis_key) × ((n : m.Node) → m.node dag.dag (m.hash n) ≢ some n))
      ⊎ ((p : m.Node) × (key_of p ≡ parent) × IsTip dag.dag p)

-- One insertion of a branch: the new key stands below the tip.
module _ ⦃b : BlsKeys⦄ ⦃m : MerkleReg SectionInfo⦄ (dag : SectionsDag) (g : IsGrown dag)
    (parent key : PublicKey) (sig : Signature) (absent : has_key dag key ≡ false)
    (signed : verify_sig parent key sig ≡ true) where
  abbrev pub Extended : SectionsDag → Type 0
  Extended dag' = Tipped dag' key × (dag'.genesis_key ≡ dag.genesis_key)

  fresh : Map.get key dag.hashes ≡ none
  fresh = fresh_key dag g parent key sig absent signed

  ne : key ≢ dag.genesis_key
  ne = not_genesis dag g parent key sig absent signed

  below_genesis :
      Tipped dag parent
      → parent ≡ dag.genesis_key
      → Extended (add_node (with_root dag (Sets.insert key dag.dag_root)) key sig [])
  unfolding add_node
  below_genesis (inr (p, q, (e, _, _))) k =
      absurd (cc (g.valid.no_genesis, g.valid.keyed (m.hash p) p e, q, k))
  below_genesis (inl (_, empty)) k =
      let r = Sets.insert key dag.dag_root in
      let v = (with_root-IsGrown dag r g).valid in
      (
        inr (
          written (with_root dag r) v key sig [] fresh ne (λ h i. absurd i),
          written-key (with_root dag r) v key sig [] fresh ne (λ h i. absurd i),
          first-IsTip (with_root dag r) v key sig [] fresh ne (λ h i. absurd i) refl empty,
        ),
        refl,
      )

  below_key :
      (h : m.Hash)
      → Tipped dag parent
      → Map.get parent dag.hashes ≡ some h
      → Extended (add_node dag key sig (h ∷ []))
  unfolding add_node
  below_key h (inl (k, _)) e = absurd (cc (g.valid.no_genesis, k, e))
  below_key h (inr (p, q, tip)) e =
      let same : h ≡ m.hash p = cc (g.valid.keyed (m.hash p) p tip.0, q, e) in
      let known = Known-one dag g parent key sig absent signed h p (rw same tip.0) in
      (
        inr (
          written dag g.valid key sig (h ∷ []) fresh ne known,
          written-key dag g.valid key sig (h ∷ []) fresh ne known,
          next-IsTip dag g.valid key sig (h ∷ []) fresh ne known p (ap (λ z. z ∷ []) same) tip,
        ),
        refl,
      )

  pub insert_trusted_key-Extended :
      (dag' : SectionsDag)
      → Tipped dag parent
      → insert_trusted_key dag parent key sig ≡ ok dag'
      → Extended dag'
  unfolding insert_trusted_key
  insert_trusted_key-Extended dag' t e = elim (Bool-cases (parent =? dag.genesis_key)) [
    | inl y ↦
        let r = Sets.insert key dag.dag_root in
        let here : add_node (with_root dag r) key sig [] ≡ dag' = ground arith in
        subst Extended here (below_genesis t (eq_of_=? parent dag.genesis_key y))
    | inr n ↦ elim (Option-cases (Map.get parent dag.hashes)) [
      | inl z ↦ absurd (ground arith)
      | inr (h, z) ↦
          let here : add_node dag key sig (h ∷ []) ≡ dag' = ground arith in
          subst Extended here (below_key h t z)
    ]
  ]
