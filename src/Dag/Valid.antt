-- ===== src/Dag/Valid.antt =====
-- The invariant of a `SectionsDAG` that was built by `new` and by signed insertions of new keys, and
-- the preservation of it.
use safe_network_archive.Dag.{
  SectionsDag, SectionInfo, new, key_of, sig_of, verify_sig, parent_node, add_node,
}
use safe_network_archive.Extern.{BlsKeys, PublicKey, Signature, keys_ord, MerkleReg}
use safe_network_archive.Extern.Merkle.{Known, lookup_all}
use safe_network_archive.Prelude.{
  ◌≡◌, ◌≢◌, refl, sym, ap, ◌∙◌, ◌⊎◌, inl, inr, true, List, [], ◌∷◌, none, some, ◌=?◌, eq_of_=?,
  =?_of_ne, arith, Bool-cases,
}
use safe_network_archive.Prelude.Map

module _ ⦃b : BlsKeys⦄ ⦃m : MerkleReg SectionInfo⦄ where
  -- A node lies directly below the genesis key, or on one node that is in the register; either way
  -- its parent's key signed it.
  abbrev pub Signed : SectionsDag → m.Node → Type 0
  Signed self n =
      ((m.children_of n ≡ []) × (verify_sig self.genesis_key (key_of n) (sig_of n) ≡ true))
      ⊎ ((h : m.Hash) × (p : m.Node) × (m.children_of n ≡ h ∷ [])
          × (m.node self.dag h ≡ some p)
          × (verify_sig (key_of p) (key_of n) (sig_of n) ≡ true))

  -- What an insertion below `kids` needs.
  abbrev pub SignedBy : SectionsDag → PublicKey → Signature → List m.Hash → Type 0
  SignedBy self key sig kids =
      ((kids ≡ []) × (verify_sig self.genesis_key key sig ≡ true))
      ⊎ ((h : m.Hash) × (p : m.Node) × (kids ≡ h ∷ [])
          × (m.node self.dag h ≡ some p)
          × (verify_sig (key_of p) key sig ≡ true))

  pub record IsValid (self : SectionsDag) : Type 0 where
    pub no_orphans : m.num_orphans self.dag ≡ 0
    pub no_genesis : Map.get self.genesis_key self.hashes ≡ none
    pub keyed :
        (h : m.Hash) (n : m.Node)
        → m.node self.dag h ≡ some n
        → Map.get (key_of n) self.hashes ≡ some h
    pub noded :
        (k : PublicKey) (h : m.Hash)
        → Map.get k self.hashes ≡ some h
        → (n : m.Node) × (m.node self.dag h ≡ some n) × (key_of n ≡ k)
    pub signed : (h : m.Hash) (n : m.Node) → m.node self.dag h ≡ some n → Signed self n

  pub new-IsValid : (g : PublicKey) → IsValid (new g)
  unfolding new Map.get
  new-IsValid g = record {
    no_orphans = omega (arith, m.num_nodes-new);
    no_genesis = refl;
    keyed = λ h n e. absurd (cc (m.node-new h));
    noded = λ k h e. absurd (ground arith);
    signed = λ h n e. absurd (cc (m.node-new h));
  }

  -- What one insertion of a new, signed key does to the register and to the hashes.
  module _ (self : SectionsDag) (v : IsValid self) (key : PublicKey) (sig : Signature)
      (kids : List m.Hash) (fresh : Map.get key self.hashes ≡ none) (ne : key ≢ self.genesis_key)
      (known : Known (m.node self.dag) kids) where
    abbrev pub written : m.Node
    written = m.write self.dag (record { key = key; sig = sig }) kids

    pub written-key : key_of written ≡ key
    written-key = ap SectionInfo.key (m.value-write _ _ _)

    pub written-sig : sig_of written ≡ sig
    written-sig = ap SectionInfo.sig (m.value-write _ _ _)

    pub written-kids : m.children_of written ≡ kids
    written-kids = m.children_of-write _ _ _

    written-Known : Known (m.node self.dag) (m.children_of written)
    written-Known = rw written-kids known

    pub node-written : m.node (m.apply written self.dag) (m.hash written) ≡ some written
    node-written = m.node-apply_self _ _ written-Known

    -- Nodes that were in the register are still there.
    pub node-kept :
        (h : m.Hash) (n : m.Node)
        → m.node self.dag h ≡ some n
        → m.node (m.apply written self.dag) h ≡ some n
    node-kept h n e = elim (m.hash_discrete h (m.hash written)) [
      | yes p ↦
          let q : n ≡ written = m.hash_injective n written (m.node-hash _ _ _ e ∙ p) in
          absurd (cc (v.keyed h n e, fresh, ap key_of q, written-key))
      | no p ↦ m.node-apply_ne _ _ h v.no_orphans written-Known p ∙ e
    ]

    -- And every other node of the new register was there.
    pub node-cases :
        (h : m.Hash) (n : m.Node)
        → m.node (m.apply written self.dag) h ≡ some n
        → ((h ≡ m.hash written) × (n ≡ written)) ⊎ (m.node self.dag h ≡ some n)
    node-cases h n e = elim (m.hash_discrete h (m.hash written)) [
      | yes p ↦ inl (p, m.hash_injective n written (m.node-hash _ _ _ e ∙ p))
      | no p ↦ inr (sym (m.node-apply_ne _ _ h v.no_orphans written-Known p) ∙ e)
    ]

    pub get-kept :
        (k : PublicKey) (h : m.Hash)
        → Map.get k self.hashes ≡ some h
        → Map.get k (Map.insert key (m.hash written) self.hashes) ≡ some h
    get-kept k h e =
        let d : key ≢ k = λ p. cc (p, e, fresh) in
        rw (Map.get-insert key k (m.hash written) self.hashes, =?_of_ne key k d) e

    Signed-kept : (n : m.Node) → Signed self n → Signed (add_node self key sig kids) n
    unfolding add_node
    Signed-kept n (inl s) = inl s
    Signed-kept n (inr (h, p, c, e, s)) = inr (h, p, c, node-kept h p e, s)

    Signed-written : SignedBy self key sig kids → Signed self written
    Signed-written (inl (c, s)) = inl (written-kids ∙ c, rw (written-key, written-sig) s)
    Signed-written (inr (h, p, c, e, s)) =
        inr (h, p, written-kids ∙ c, e, rw (written-key, written-sig) s)

    noded_after :
        (k : PublicKey) (h : m.Hash)
        → Map.get k (Map.insert key (m.hash written) self.hashes) ≡ some h
        → (n : m.Node) × (m.node (m.apply written self.dag) h ≡ some n) × (key_of n ≡ k)
    noded_after k h e = elim (Bool-cases (key =? k)) [
      | inl y ↦
          let p : m.hash written ≡ h =
            ground (arith, Map.get-insert key k (m.hash written) self.hashes) in
          (written, rw (← p) node-written, written-key ∙ eq_of_=? key k y)
      | inr n ↦
          let (x, f, q) =
            v.noded k h (ground (arith, Map.get-insert key k (m.hash written) self.hashes)) in
          (x, node-kept h x f, q)
    ]

    pub add_node-IsValid : SignedBy self key sig kids → IsValid (add_node self key sig kids)
    unfolding add_node
    add_node-IsValid s = record {
      no_orphans = m.num_orphans-apply _ _ v.no_orphans written-Known;
      no_genesis =
          rw (Map.get-insert key self.genesis_key (m.hash written) self.hashes, =?_of_ne key _ ne)
            v.no_genesis;
      keyed = λ h n e. elim (node-cases h n e) [
        | inl (p, q) ↦ rw (ap key_of q ∙ written-key, p) (Map.get-insert_self key _ self.hashes)
        | inr old ↦ get-kept (key_of n) h (v.keyed h n old)
      ];
      noded = noded_after;
      signed = λ h n e. elim (node-cases h n e) [
        | inl (p, q) ↦ rw q (Signed-kept written (Signed-written s))
        | inr old ↦ Signed-kept n (v.signed h n old)
      ];
    }

  -- The parent that a valid DAG gives each of its keys.
  module _ (self : SectionsDag) (v : IsValid self) where
    pub parent_node-signed :
        (h : m.Hash) (n : m.Node)
        → m.node self.dag h ≡ some n
        → ((m.children_of n ≡ []) × (parent_node self h ≡ none))
          ⊎ ((k : m.Hash) × (p : m.Node) × (m.children_of n ≡ k ∷ [])
              × (m.node self.dag k ≡ some p)
              × (parent_node self h ≡ some p))
    unfolding parent_node lookup_all
    parent_node-signed h n e = elim (v.signed h n e) [
      | inl (c, s) ↦ inl (c, rw (m.children-node self.dag h n e, c))
      | inr (k, p, c, f, s) ↦
          inr (k, p, c, f, rw (m.children-node self.dag h n e, c, lookup_all, f))
    ]
