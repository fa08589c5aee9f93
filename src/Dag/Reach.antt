-- ===== src/Dag/Reach.antt =====
-- The nodes of a grown DAG below one of its nodes, and the root keys that they are below.
use safe_network_archive.Dag.{
  SectionsDag, SectionInfo, key_of, has_key, get_parent_key, child_nodes,
}
use safe_network_archive.Dag.Branch.{IsNode, parent_cases}
use safe_network_archive.Dag.Chain.{IsGrown, Lineage, root, child}
use safe_network_archive.Dag.Partial.{key-IsNode}
use safe_network_archive.Dag.Roots.{HasRoots}
use safe_network_archive.Dag.Valid.{IsValid, parent_node-signed}
use safe_network_archive.Extern.{BlsKeys, PublicKey, keys_ord, MerkleReg}
use safe_network_archive.Prelude.{
  ◌≡◌, ◌≢◌, refl, sym, ap, subst, ◌∙◌, ◌⊎◌, inl, inr, true, List, some, ok, ◌=?◌, =?-refl, eq_of_=?,
  In, arith, Bool-cases, Option-cases,
}
use safe_network_archive.Prelude.Map

module _ ⦃b : BlsKeys⦄ ⦃m : MerkleReg SectionInfo⦄ (self : SectionsDag) where
  -- The key is that of the node, or of one below it.
  pub data Reaches : m.Node → PublicKey → Type 0 where
    itself : (n : m.Node) (k : PublicKey) → key_of n ≡ k → Reaches n k
    further :
        (n lower : m.Node) (k : PublicKey)
        → In lower (child_nodes self (m.hash n))
        → Reaches lower k
        → Reaches n k

  pub same_node :
      (n q : m.Node) → IsValid self → IsNode self n → IsNode self q → key_of n ≡ key_of q → n ≡ q
  same_node n q v e f same =
      m.hash_injective n q (cc (v.keyed (m.hash n) n e, v.keyed (m.hash q) q f, same))

  -- A node stands below the node of its parent key.
  below_parent :
      (n lower : m.Node)
      → IsValid self
      → IsNode self n
      → IsNode self lower
      → key_of n ≢ self.genesis_key
      → get_parent_key self (key_of lower) ≡ ok (some (key_of n))
      → In lower (child_nodes self (m.hash n))
  unfolding child_nodes
  below_parent n lower v e f no_genesis h = elim (parent_cases self lower v f) [
    | inl (_, (_, p)) ↦ absurd (no_genesis (cc (p, h)))
    | inr (q, above, at_node, (_, p)) ↦
        let same : n ≡ q = same_node n q v e at_node (cc (p, h)) in
        elim (parent_node-signed self v (m.hash lower) lower f) [
          | inl (_, none_above) ↦ absurd (cc (none_above, above))
          | inr (hash, q', one, there, above') ↦
              let same' : q ≡ q' = cc (above, above') in
              let hash_q : hash ≡ m.hash n = cc (m.node-hash self.dag hash q' there, same, same') in
              (m.parents_iff self.dag (m.hash n) lower).1
                (f, subst (In (m.hash n)) (sym one) (inl (sym hash_q)))
        ]
  ]

  -- One level further down.
  Reaches-below :
      (top lower : m.Node) (p : PublicKey)
      → IsValid self
      → IsNode self top
      → IsNode self lower
      → p ≢ self.genesis_key
      → get_parent_key self (key_of lower) ≡ ok (some p)
      → Reaches top p
      → Reaches top (key_of lower)
  unfolding child_nodes
  Reaches-below top lower p v e f ne h (itself _ _ same) =
      further top lower (key_of lower)
        (below_parent top lower v e f (λ z. ne (sym same ∙ z))
          (h ∙ ap (λ z. ok (some z)) (sym same)))
        (itself lower (key_of lower) refl)
  Reaches-below top lower p v e f ne h (further _ next _ i r) =
      further top next (key_of lower) i
        (Reaches-below next lower p v ((m.parents_iff self.dag (m.hash top) next).0 i).0 f ne h r)

  module _ (g : IsGrown self) (roots : HasRoots self) where
    -- A root key whose node reaches the key.
    abbrev pub FromRoot : PublicKey → Type 0
    FromRoot k =
        (r : PublicKey) × (top : m.Node) × In r self.dag_root
        × IsNode self top
        × (key_of top ≡ r)
        × Reaches top k

    pub Lineage-FromRoot :
        (k : PublicKey) (line : List PublicKey)
        → Lineage self k line
        → (k ≡ self.genesis_key) ⊎ FromRoot k
    Lineage-FromRoot k line (root _ e) = inl e
    Lineage-FromRoot k line (child _ p n line' e found s l) =
        let (at_node, q) = key-IsNode self k n g.valid found in
        let at_root =
          λ (start : p ≡ self.genesis_key). (roots k).1 (e ∙ ap (λ z. ok (some z)) start) in
        elim (Bool-cases (p =? self.genesis_key)) [
          | inl y ↦ inr (k, n, at_root (eq_of_=? p self.genesis_key y), at_node, q, itself n k q)
          | inr z ↦ elim (Lineage-FromRoot p line' l) [
            | inl start ↦ inr (k, n, at_root start, at_node, q, itself n k q)
            | inr (r, top, i, at_top, t, reached) ↦
                let ne : p ≢ self.genesis_key =
                  λ c. cc (z, ap (λ x. x =? self.genesis_key) c ∙ =?-refl self.genesis_key) in
                let parent = ap (get_parent_key self) q ∙ e in
                inr (
                  r,
                  top,
                  i,
                  at_top,
                  t,
                  subst (Reaches top) q
                      (Reaches-below top n p g.valid at_top at_node ne parent reached),
                )
          ]
        ]

    -- Every key of the DAG is its genesis key or below a root key.
    pub has_key-FromRoot :
        (k : PublicKey) → has_key self k ≡ true → (k ≡ self.genesis_key) ⊎ FromRoot k
    unfolding has_key Map.contains_key
    has_key-FromRoot k has = elim (Bool-cases (k =? self.genesis_key)) [
      | inl y ↦ inl (eq_of_=? k self.genesis_key y)
      | inr z ↦ elim (Option-cases (Map.get k self.hashes)) [
        | inl absent ↦ absurd (ground arith)
        | inr (h, there) ↦ let (line, l, _) = g.lineage k h there in Lineage-FromRoot k line l
      ]
    ]
