-- ===== src/Dag/Cover.antt =====
-- Every key of a grown DAG stands above a leaf.
use safe_network_archive.Dag.{
  SectionsDag, SectionInfo, key_of, has_key, get_hash, get_node, get_parent_key,
}
use safe_network_archive.Dag.Branch.{Depth, Depth-of, Depth-unique, above, IsNode, parent_cases}
use safe_network_archive.Dag.Chain.{IsGrown, Lineage, root, child, get_parent_key_genesis}
use safe_network_archive.Dag.Tip.{member_cases}
use safe_network_archive.Dag.Valid.{parent_node-signed}
use safe_network_archive.Extern.{BlsKeys, PublicKey, keys_ord, MerkleReg}
use safe_network_archive.Prelude.{
  ℕ, zero, suc, ◌+◌, ◌<◌, ◌≡◌, sym, ap, subst, ◌∙◌, inl, inr, true, List, some, ok, ◌=?◌, =?-refl,
  eq_of_=?, length, In, arith, Bool-cases, Option-cases,
}
use safe_network_archive.Prelude.Map
use safe_network_archive.Dag.ReadBack.{Mirrors}

module _ ⦃b : BlsKeys⦄ ⦃m : MerkleReg SectionInfo⦄ where
  Lineage-has_key :
      (dag : SectionsDag) (k : PublicKey) (line : List PublicKey)
      → Lineage dag k line
      → has_key dag k ≡ true
  unfolding has_key get_node get_hash Map.contains_key
  Lineage-has_key dag k line (root _ e) = rw (e, =?-refl dag.genesis_key)
  Lineage-has_key dag k line (child _ p n line' e f s l) = ground arith

  -- The parent of a key of a grown DAG is in the DAG.
  parent-has_key :
      (dag : SectionsDag) (k p : PublicKey)
      → IsGrown dag
      → has_key dag k ≡ true
      → get_parent_key dag k ≡ ok (some p)
      → has_key dag p ≡ true
  unfolding has_key Map.contains_key
  parent-has_key dag k p grown has e = elim (Bool-cases (k =? dag.genesis_key)) [
    | inl y ↦ absurd (cc (get_parent_key_genesis dag k (eq_of_=? k dag.genesis_key y), e))
    | inr z ↦ elim (Option-cases (Map.get k dag.hashes)) [
      | inl absent ↦ absurd (ground arith)
      | inr (h, there) ↦ let (line, l, bound) = grown.lineage k h there in of_lineage line l
    ]
  ]
    where
      of_lineage : (line : List PublicKey) → Lineage dag k line → has_key dag p ≡ true
      of_lineage line (root _ q) = absurd (cc (get_parent_key_genesis dag k q, e))
      of_lineage line (child _ q n line' f s t l) =
          let same : q ≡ p = cc (e, f) in
          subst (λ z. has_key dag z ≡ true) same (Lineage-has_key dag q line' l)

  module _ (self : SectionsDag) (g : IsGrown self) where
    pub lower-parent :
        (node lower : m.Node)
        → IsNode self node
        → In lower (m.parents self.dag (m.hash node))
        → IsNode self lower × (get_parent_key self (key_of lower) ≡ ok (some (key_of node)))
    lower-parent node lower e i =
        let (at_node, c) = (m.parents_iff self.dag (m.hash node) lower).0 i in
        (
          at_node,
          elim (parent_node-signed self g.valid (m.hash lower) lower at_node) [
            | inl (empty, _) ↦ absurd (subst (In (m.hash node)) empty c)
            | inr (h, p, one, f, q) ↦ elim (subst (In (m.hash node)) one c) [
              | inr j ↦ absurd j
              | inl same ↦ elim (parent_cases self lower g.valid at_node) [
                | inl (top, _) ↦ absurd (cc (top, q))
                | inr (p', q', _, edge) ↦
                    let is_node : p' ≡ node = cc (q, q', f, e, same) in
                    edge.1 ∙ ap (λ z. ok (some (key_of z))) is_node
              ]
            ]
          ],
        )

    -- From a node down to a leaf: the DAG has no more levels than keys.
    node-has_key :
        (dag : SectionsDag) (fuel depth : ℕ) (node : m.Node)
        → Mirrors self g dag
        → ((n : m.Node) → In n (m.read self.dag) → has_key dag (key_of n) ≡ true)
        → IsNode self node
        → Depth self (key_of node) depth
        → length self.hashes < fuel + depth
        → has_key dag (key_of node) ≡ true
    node-has_key dag zero depth node mirrors leaves e deep enough =
        let (line, l, bound) =
          g.lineage (key_of node) (m.hash node) (g.valid.keyed (m.hash node) node e) in
        absurd (
          omega (
            arith,
            Depth-unique self (key_of node) depth (length line) deep
                (Depth-of self (key_of node) line l),
          ))
    node-has_key dag (suc fuel) depth node mirrors leaves e deep enough =
        elim (member_cases (m.parents self.dag (m.hash node))) [
          | inl top ↦ leaves node ((m.read_iff self.dag node).1 (e, top))
          | inr (lower, i) ↦
              let (at_node, edge) = lower-parent node lower e i in
              let there =
                node-has_key dag fuel (suc depth) lower mirrors leaves at_node
                  (above (key_of lower) (key_of node) depth edge deep) (omega arith) in
              parent-has_key dag (key_of lower) (key_of node) mirrors.0 there
                (mirrors.2 (key_of lower) there ∙ edge)
        ]

    pub all-has_key :
        (dag : SectionsDag) (k : PublicKey)
        → Mirrors self g dag
        → ((n : m.Node) → In n (m.read self.dag) → has_key dag (key_of n) ≡ true)
        → has_key self k ≡ true
        → has_key dag k ≡ true
    unfolding has_key Map.contains_key
    all-has_key dag k mirrors leaves has = elim (Bool-cases (k =? self.genesis_key)) [
      | inl y ↦
          let root_key = eq_of_=? k self.genesis_key y in
          ground (arith, =?-refl dag.genesis_key, root_key, mirrors.1)
      | inr z ↦ elim (Option-cases (Map.get k self.hashes)) [
        | inl absent ↦ absurd (ground arith)
        | inr (h, there) ↦
            let (n, f, q) = g.valid.noded k h there in
            let e = subst (λ x. m.node self.dag x ≡ some n) (sym (m.node-hash self.dag h n f)) f in
            let (line, l, _) = g.lineage k h there in
            let deep = subst (λ x. Depth self x (length line)) (sym q) (Depth-of self k line l) in
            subst (λ x. has_key dag x ≡ true) q
              (node-has_key dag (suc (length self.hashes)) (length line) n mirrors leaves e deep
                (omega arith))
      ]
    ]
