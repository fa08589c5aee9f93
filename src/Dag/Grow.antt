-- ===== src/Dag/Grow.antt =====
-- That a signed insertion of a new key keeps the chains of a `SectionsDAG`, and the parent it gets.
use safe_network_archive.Dag.{
  SectionsDag, SectionInfo, key_of, verify_sig, has_key, get_parent_key, get_node, parent_node,
  add_node, insert_trusted_key,
}
use safe_network_archive.Dag.Chain.{
  IsGrown, Lineage, root, child, Lineage-new, Lineage-kept, new_parent,
}
use safe_network_archive.Dag.Valid.{SignedBy, written, add_node-IsValid}
use safe_network_archive.Extern.{BlsKeys, PublicKey, Signature, keys_ord, MerkleReg}
use safe_network_archive.Extern.Merkle.{Known}
use safe_network_archive.Prelude.{
  ◌≡◌, ◌≢◌, refl, sym, ap, subst, ◌∙◌, inl, inr, ◌≤◌, true, false, List, [], ◌∷◌, none, some, ok,
  ◌=?◌, =?-refl, eq_of_=?, length, arith, Bool-cases, Option-cases,
}
use safe_network_archive.Prelude.Map
use safe_network_archive.Prelude.Sets

module _ ⦃b : BlsKeys⦄ ⦃m : MerkleReg SectionInfo⦄ where
  -- Only `has_key`, `get_parent_key` and the register matter to the invariant.
  abbrev pub with_root : SectionsDag → List PublicKey → SectionsDag
  with_root self r = record self { dag_root = r }

  Lineage-with_root :
      (self : SectionsDag) (r : List PublicKey) (k : PublicKey) (line : List PublicKey)
      → Lineage self k line
      → Lineage (with_root self r) k line
  unfolding get_parent_key get_node parent_node
  Lineage-with_root self r k line (root _ e) = root k e
  Lineage-with_root self r k line (child _ p n line' e f g l) =
      child k p n line' e f g (Lineage-with_root self r p line' l)

  pub with_root-IsGrown :
      (self : SectionsDag) (r : List PublicKey) → IsGrown self → IsGrown (with_root self r)
  with_root-IsGrown self r g = record {
    valid = record {
      no_orphans = g.valid.no_orphans;
      no_genesis = g.valid.no_genesis;
      keyed = g.valid.keyed;
      noded = g.valid.noded;
      signed = g.valid.signed;
    };
    lineage = λ k h e.
        let (line, l, bound) = g.lineage k h e in (line, Lineage-with_root self r k line l, bound);
  }

  module _ (self : SectionsDag) (g : IsGrown self) (key : PublicKey) (sig : Signature)
      (kids : List m.Hash) (fresh : Map.get key self.hashes ≡ none) (ne : key ≢ self.genesis_key)
      (known : Known (m.node self.dag) kids) (s : SignedBy self key sig kids) where
    Lineage-after :
        (k : PublicKey) (h : m.Hash)
        → Map.get k (add_node self key sig kids).hashes ≡ some h
        → (line : List PublicKey) × Lineage (add_node self key sig kids) k line
          × (length line ≤ length (add_node self key sig kids).hashes)
    unfolding add_node
    Lineage-after k h e = elim (Bool-cases (key =? k)) [
      | inl y ↦
          let (p, line, l, bound) = Lineage-new self g.valid key sig kids fresh ne known s g in
          (
            p ∷ line,
            rw (← eq_of_=? key k y) l,
            rw (Map.length-insert_new key _ self.hashes fresh) (omega arith),
          )
      | inr n ↦
          let (line, l, bound) = g.lineage k h (
            ground (
              arith,
              Map.get-insert key k (m.hash (written self g.valid key sig kids fresh ne known))
                  self.hashes,
            )) in
          (
            line,
            Lineage-kept self g.valid key sig kids fresh ne known s k line l,
            rw (Map.length-insert_new key _ self.hashes fresh) (omega arith),
          )
    ]

    pub add_node-IsGrown : IsGrown (add_node self key sig kids)
    add_node-IsGrown = record {
      valid = add_node-IsValid self g.valid key sig kids fresh ne known s;
      lineage = Lineage-after;
    }

  -- The hashes below a key that may be a parent: none for the genesis key.
  module _ (self : SectionsDag) (g : IsGrown self) (parent key : PublicKey) (sig : Signature)
      (absent : has_key self key ≡ false) (signed : verify_sig parent key sig ≡ true) where
    pub fresh_key : Map.get key self.hashes ≡ none
    unfolding has_key Map.contains_key
    fresh_key = ground arith

    pub not_genesis : key ≢ self.genesis_key
    unfolding has_key
    not_genesis e = ground (arith, =?-refl key)

    insert_below_genesis :
        parent ≡ self.genesis_key
        → IsGrown (add_node (with_root self (Sets.insert key self.dag_root)) key sig [])
    insert_below_genesis e =
        add_node-IsGrown (with_root self (Sets.insert key self.dag_root))
          (with_root-IsGrown self _ g) key sig [] fresh_key not_genesis (λ h i. absurd i)
          (inl (refl, rw (← e) signed))

    pub parent_signed :
        (h : m.Hash) (p : m.Node)
        → m.node self.dag h ≡ some p
        → key_of p ≡ parent
        → SignedBy self key sig (h ∷ [])
    parent_signed h p e q = inr (h, p, refl, e, rw q signed)

    pub Known-one :
        (h : m.Hash) (p : m.Node) → m.node self.dag h ≡ some p → Known (m.node self.dag) (h ∷ [])
    Known-one h p e h' (inl q) = (p, rw q e)
    Known-one h p e h' (inr i) = absurd i

    insert_below_key :
        (h : m.Hash)
        → Map.get parent self.hashes ≡ some h
        → IsGrown (add_node self key sig (h ∷ []))
    insert_below_key h e =
        let (p, f, q) = g.valid.noded parent h e in
        add_node-IsGrown self g key sig (h ∷ []) fresh_key not_genesis (Known-one h p f)
          (parent_signed h p f q)

    pub insert_trusted_key-IsGrown :
        (self' : SectionsDag) → insert_trusted_key self parent key sig ≡ ok self' → IsGrown self'
    unfolding insert_trusted_key
    insert_trusted_key-IsGrown self' e = elim (Bool-cases (parent =? self.genesis_key)) [
      | inl y ↦
          subst IsGrown (ground arith) (insert_below_genesis (eq_of_=? parent self.genesis_key y))
      | inr n ↦ elim (Option-cases (Map.get parent self.hashes)) [
        | inl z ↦ absurd (ground arith)
        | inr (h, z) ↦ subst IsGrown (ground arith) (insert_below_key h z)
      ]
    ]

    abbrev HasParent : SectionsDag → Type 0
    HasParent dag = get_parent_key dag key ≡ ok (some parent)

    parent_below_genesis :
        parent ≡ self.genesis_key
        → HasParent (add_node (with_root self (Sets.insert key self.dag_root)) key sig [])
    parent_below_genesis e =
        let r = Sets.insert key self.dag_root in
        new_parent (with_root self r) (with_root-IsGrown self r g).valid key sig [] fresh_key
          not_genesis (λ h i. absurd i) (inl (refl, rw (← e) signed)) none (inl (refl, refl))
        ∙ ap (λ k. ok (some k)) (sym e)

    parent_below_key :
        (h : m.Hash)
        → Map.get parent self.hashes ≡ some h
        → HasParent (add_node self key sig (h ∷ []))
    parent_below_key h e =
        let (p, f, q) = g.valid.noded parent h e in
        new_parent self g.valid key sig (h ∷ []) fresh_key not_genesis (Known-one h p f)
          (parent_signed h p f q) (some p) (inr (h, p, refl, f, refl))
        ∙ ap (λ k. ok (some k)) q

    -- The parent that the new key gets.
    pub insert_trusted_key-parent :
        (self' : SectionsDag)
        → insert_trusted_key self parent key sig ≡ ok self'
        → get_parent_key self' key ≡ ok (some parent)
    unfolding insert_trusted_key
    insert_trusted_key-parent self' e = elim (Bool-cases (parent =? self.genesis_key)) [
      | inl y ↦ subst HasParent (ground arith) (parent_below_genesis (eq_of_=? parent _ y))
      | inr n ↦ elim (Option-cases (Map.get parent self.hashes)) [
        | inl z ↦ absurd (ground arith)
        | inr (h, z) ↦ subst HasParent (ground arith) (parent_below_key h z)
      ]
    ]
