-- ===== src/Dag/Chain.antt =====
-- The chain of signed keys from a key of a `SectionsDAG` down to the genesis key: every insertion of
-- a new key keeps the chains, so the walks over a branch end.
use safe_network_archive.Dag.{
  SectionsDag, SectionInfo, new, key_of, sig_of, verify_sig, get_node, parent_node, get_parent_key,
  parent_or_genesis, add_node,
}
use safe_network_archive.Dag.Valid.{
  IsValid, new-IsValid, node-kept, node-written, written, written-sig, written-kids, get-kept,
  SignedBy,
}
use safe_network_archive.Extern.{BlsKeys, PublicKey, Signature, keys_ord, MerkleReg}
use safe_network_archive.Extern.Merkle.{Known, lookup_all}
use safe_network_archive.Prelude.{
  ◌≡◌, ◌≢◌, refl, ◌∙◌, ◌⊎◌, inl, inr, ◌≤◌, true, List, [], ◌∷◌, Option, none, some, ok, =?-refl,
  =?_of_ne, length, arith,
}
use safe_network_archive.Prelude.Map

module _ ⦃b : BlsKeys⦄ ⦃m : MerkleReg SectionInfo⦄ where
  -- The reads of a key, from what the maps hold.
  module _ (self : SectionsDag) (k : PublicKey) where
    pub get_node_inv :
        (n : m.Node)
        → get_node self k ≡ ok n
        → (h : m.Hash) × (Map.get k self.hashes ≡ some h) × (m.node self.dag h ≡ some n)
    unfolding get_node
    get_node_inv n e = ground arith

    pub get_node_of :
        (h : m.Hash) (n : m.Node)
        → Map.get k self.hashes ≡ some h
        → m.node self.dag h ≡ some n
        → get_node self k ≡ ok n
    unfolding get_node
    get_node_of h n e f = ground arith

    pub get_parent_key_of :
        (h : m.Hash) (o : Option m.Node)
        → k ≢ self.genesis_key
        → Map.get k self.hashes ≡ some h
        → parent_node self h ≡ o
        → get_parent_key self k ≡ ok (parent_or_genesis self o)
    unfolding get_parent_key
    get_parent_key_of h o d e f = rw (=?_of_ne k self.genesis_key d, e, f)

    pub get_parent_key_genesis : k ≡ self.genesis_key → get_parent_key self k ≡ ok none
    unfolding get_parent_key
    get_parent_key_genesis e = rw (e, =?-refl)

  -- `Lineage self k line`: the ancestors of `k` are `line`, nearest first, and each key was signed by
  -- the next one.
  pub data Lineage (self : SectionsDag) : PublicKey → List PublicKey → Type 0 where
    root : (k : PublicKey) → k ≡ self.genesis_key → Lineage self k []
    child :
        (k p : PublicKey) (n : m.Node) (line : List PublicKey)
        → get_parent_key self k ≡ ok (some p)
        → get_node self k ≡ ok n
        → verify_sig p k (sig_of n) ≡ true
        → Lineage self p line
        → Lineage self k (p ∷ line)

  -- A valid DAG in which every key has its chain to the genesis key, no longer than the number of
  -- keys.
  pub record IsGrown (self : SectionsDag) : Type 0 where
    pub valid : IsValid self
    pub lineage :
        (k : PublicKey) (h : m.Hash)
        → Map.get k self.hashes ≡ some h
        → (line : List PublicKey) × Lineage self k line × (length line ≤ length self.hashes)

  pub new-IsGrown : (g : PublicKey) → IsGrown (new g)
  unfolding new Map.get
  new-IsGrown g = record { valid = new-IsValid g; lineage = λ k h e. absurd (ground arith) }

  module _ (self : SectionsDag) (v : IsValid self) (key : PublicKey) (sig : Signature)
      (kids : List m.Hash) (fresh : Map.get key self.hashes ≡ none) (ne : key ≢ self.genesis_key)
      (known : Known (m.node self.dag) kids) (s : SignedBy self key sig kids) where
    abbrev grown : SectionsDag
    grown = add_node self key sig kids

    parent_node-kept :
        (h : m.Hash) (n : m.Node)
        → m.node self.dag h ≡ some n
        → parent_node grown h ≡ parent_node self h
    unfolding add_node parent_node lookup_all
    parent_node-kept h n e =
        let e' = node-kept self v key sig kids fresh ne known h n e in
        elim (v.signed h n e) [
          | inl (c, _) ↦ rw (m.children-node _ h n e, m.children-node _ h n e', c)
          | inr (g, p, c, f, _) ↦
              let f' = node-kept self v key sig kids fresh ne known g p f in
              rw (m.children-node _ h n e, m.children-node _ h n e', c, lookup_all, f, f')
        ]

    -- Each old key keeps its node and its parent.
    get_node-kept : (k : PublicKey) (n : m.Node) → get_node self k ≡ ok n → get_node grown k ≡ ok n
    unfolding add_node
    get_node-kept k n e =
        let (h, f, g) = get_node_inv self k n e in
        get_node_of grown k h n (get-kept self v key sig kids fresh ne known k h f)
          (node-kept self v key sig kids fresh ne known h n g)

    pub get_parent_key-kept :
        (k : PublicKey) (h : m.Hash)
        → Map.get k self.hashes ≡ some h
        → get_parent_key grown k ≡ get_parent_key self k
    unfolding get_parent_key add_node
    get_parent_key-kept k h e =
        let (n, f, _) = v.noded k h e in
        rw (e, get-kept self v key sig kids fresh ne known k h e, parent_node-kept h n f)

    pub Lineage-kept :
        (k : PublicKey) (line : List PublicKey) → Lineage self k line → Lineage grown k line
    unfolding add_node
    Lineage-kept k line (root _ e) = root k e
    Lineage-kept k line (child _ p n line' e f g l) =
        let (h, get_k, _) = get_node_inv self k n f in
        child k p n line' (get_parent_key-kept k h get_k ∙ e) (get_node-kept k n f) g
          (Lineage-kept p line' l)

    new_key : get_node grown key ≡ ok (written self v key sig kids fresh ne known)
    unfolding add_node
    new_key =
        get_node_of grown key _ _ (Map.get-insert_self key _ self.hashes)
          (node-written self v key sig kids fresh ne known)

    -- The node that a list of at most one hash names, as the new key's parent.
    pub new_parent :
        (o : Option m.Node)
        → ((kids ≡ []) × (o ≡ none))
          ⊎ ((h : m.Hash) × (p : m.Node) × (kids ≡ h ∷ [])
              × (m.node self.dag h ≡ some p)
              × (o ≡ some p))
        → get_parent_key grown key ≡ ok (parent_or_genesis self o)
    unfolding add_node parent_node lookup_all
    new_parent o c = get_parent_key_of grown key _ o ne (Map.get-insert_self key _ self.hashes) (
        rw
          (
            m.children-node _ _ _ (node-written self v key sig kids fresh ne known),
            written-kids self v key sig kids fresh ne known,
          )
          (elim c [
            | inl (e, q) ↦ rw (e, q)
            | inr (h, p, e, f, q) ↦
                rw (e, q, lookup_all, node-kept self v key sig kids fresh ne known h p f)
          ]))

    -- The new key's chain: its parent's, and the parent.
    pub Lineage-new :
        IsGrown self
        → (p : PublicKey) × (line : List PublicKey) × Lineage grown key (p ∷ line)
          × (length line ≤ length self.hashes)
    unfolding add_node
    Lineage-new g = elim s [
      | inl (c, t) ↦ (
        self.genesis_key,
        [],
        child key self.genesis_key (written self v key sig kids fresh ne known) []
            (new_parent none (inl (c, refl))) new_key
            (rw (written-sig self v key sig kids fresh ne known) t) (root self.genesis_key refl),
        omega arith,
      )
      | inr (h, p, c, e, t) ↦
          let (line, l, bound) = g.lineage (key_of p) h (v.keyed h p e) in
          (
            key_of p,
            line,
            child key (key_of p) (written self v key sig kids fresh ne known) line
                (new_parent (some p) (inr (h, p, c, e, refl))) new_key
                (rw (written-sig self v key sig kids fresh ne known) t)
                (Lineage-kept (key_of p) line l),
            bound,
          )
    ]
