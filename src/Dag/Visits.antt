-- ===== src/Dag/Visits.antt =====
-- The visits of the loop of `merge`: a node of a grown DAG, once its parent is in the first DAG, is
-- taken with all the nodes below it.
use mathlib.Core.List.{reverse}
use safe_network_archive.Dag.{
  SectionsDag, SectionInfo, key_of, sig_of, verify_sig, has_key, get_parent_key, child_nodes,
  insert_node,
}
use safe_network_archive.Dag.Branch.{
  Depth, above, Depth-of, Depth-unique, Edge, IsNode, parent_cases,
}
use safe_network_archive.Dag.Chain.{IsGrown}
use safe_network_archive.Dag.Cover.{lower-parent}
use safe_network_archive.Dag.Insert.{verify_and_insert-ok_iff, has_key-verify_and_insert}
use safe_network_archive.Dag.Reach.{Reaches, itself, further}
use safe_network_archive.Dag.Valid.{IsValid}
use safe_network_archive.Dag.Walk.{merge_loop}
use safe_network_archive.Extern.{BlsKeys, PublicKey, keys_ord, MerkleReg}
use safe_network_archive.Prelude.{
  ℕ, zero, suc, ◌+◌, ◌<◌, ◌≡◌, refl, ap, subst, ◌∙◌, inl, inr, true, List, [], ◌∷◌, ◌++◌, map, some,
  ok, =?-refl, length, In, All, All-reverse, All-of_reverse, All-of_In, arith,
}

module _ ⦃b : BlsKeys⦄ ⦃m : MerkleReg SectionInfo⦄ where
  -- The key that `get_parent_key` gives for a node signed it.
  pub signed_by :
      (dag : SectionsDag) (node : m.Node) (parent : PublicKey)
      → IsValid dag
      → IsNode dag node
      → get_parent_key dag (key_of node) ≡ ok (some parent)
      → verify_sig parent (key_of node) (sig_of node) ≡ true
  signed_by dag node parent v e has_parent = elim (parent_cases dag node v e) [
    | inl (_, (s, p)) ↦
        let same : dag.genesis_key ≡ parent = cc (p, has_parent) in
        subst (λ k. verify_sig k (key_of node) (sig_of node) ≡ true) same s
    | inr (q, _, _, (s, p)) ↦
        let same : key_of q ≡ parent = cc (p, has_parent) in
        subst (λ k. verify_sig k (key_of node) (sig_of node) ≡ true) same s
  ]

module _ ⦃b : BlsKeys⦄ ⦃m : MerkleReg SectionInfo⦄ (other : SectionsDag) (g : IsGrown other) where
  abbrev pub Visit : Type 0
  Visit = PublicKey × m.Node

  -- A node of the other DAG, at its depth there, and its parent, which the first DAG has.
  abbrev pub IsReady : SectionsDag → ℕ → Visit → Type 0
  IsReady self depth v =
      (has_key self v.0 ≡ true)
      × IsNode other v.1
      × Edge other v.0 v.1
      × Depth other (key_of v.1) depth

  abbrev pub AreReady : SectionsDag → ℕ → List Visit → Type 0
  AreReady self depth visits = All (λ v. IsReady self depth v) visits

  abbrev pub KeepsKeys : SectionsDag → SectionsDag → Type 0
  KeepsKeys self self' = (k : PublicKey) → has_key self k ≡ true → has_key self' k ≡ true

  AreReady-kept :
      (self self' : SectionsDag) (depth : ℕ) (visits : List Visit)
      → KeepsKeys self self'
      → AreReady self depth visits
      → AreReady self' depth visits
  AreReady-kept self self' depth [] kept h = tt
  AreReady-kept self self' depth (v ∷ visits) kept ((has, e, edge, deep), h) =
      ((kept v.0 has, e, edge, deep), AreReady-kept self self' depth visits kept h)

  -- The keys at and below a visited node are there.
  abbrev pub IsTaken : SectionsDag → Visit → Type 0
  IsTaken self v = (k : PublicKey) → Reaches other v.1 k → has_key self k ≡ true

  -- After some rounds these visits are done, whatever the others are.
  abbrev pub Done : SectionsDag → List Visit → Type 0
  Done self visits =
      (rounds : ℕ) × (self' : SectionsDag) × KeepsKeys self self'
      × All (λ v. IsTaken self' v) visits
      × ((fuel fuel' : ℕ) (rest : List Visit)
          → fuel' ≡ rounds + fuel
          → merge_loop fuel' other self (visits ++ rest) ≡ merge_loop fuel other self' rest)

  -- What the loop visits below a node.
  abbrev below : m.Node → List Visit
  below node = reverse (map (λ child. (key_of node, child)) (child_nodes other (m.hash node)))

  step-run :
      (self mid self' : SectionsDag) (parent : PublicKey) (node : m.Node) (r : ℕ)
      → insert_node self parent node ≡ ok mid
      → ((fuel fuel' : ℕ) (rest : List Visit)
          → fuel' ≡ r + fuel
          → merge_loop fuel' other mid (below node ++ rest) ≡ merge_loop fuel other self' rest)
      → (fuel fuel' : ℕ) (rest : List Visit) → fuel' ≡ suc r + fuel
      → merge_loop fuel' other self ((parent, node) ∷ rest) ≡ merge_loop fuel other self' rest
  unfolding merge_loop
  step-run self mid self' parent node r inserted run fuel zero rest e = absurd (omega arith)
  step-run self mid self' parent node r inserted run fuel (suc fuel') rest e =
      rw (inserted, merge_loop) (run fuel fuel' rest (omega arith))

  insert_visit :
      (self : SectionsDag) (parent : PublicKey) (node : m.Node)
      → has_key self parent ≡ true
      → verify_sig parent (key_of node) (sig_of node) ≡ true
      → (self' : SectionsDag) × (insert_node self parent node ≡ ok self')
        × (has_key self' (key_of node) ≡ true)
        × KeepsKeys self self'
  unfolding insert_node
  insert_visit self parent node has signed =
      let key = key_of node in
      let (self', e) = (verify_and_insert-ok_iff self parent key (sig_of node)).1 (signed, has) in
      let after =
        λ (k : PublicKey). has_key-verify_and_insert self parent key (sig_of node) self' k e in
      (self', e, ground (arith, after key, =?-refl key), λ k old. ground (arith, after k))

  pub visits-Done :
      (depth : ℕ)
      → ((self : SectionsDag) (v : Visit) → IsReady self depth v → Done self (v ∷ []))
      → (self : SectionsDag) (visits : List Visit) → AreReady self depth visits
      → Done self visits
  visits-Done depth one self [] h = (
    0,
    self,
    (λ k has. has),
    tt,
    λ fuel fuel' rest e. ap (λ f. merge_loop f other self rest) (omega arith),
  )
  visits-Done depth one self (v ∷ visits) (ready, h) =
      let (r, mid, kept, (taken, _), run) = one self v ready in
      let (r', self', kept', taken', run') =
        visits-Done depth one mid visits (AreReady-kept self mid depth visits kept h) in
      (
        r + r',
        self',
        (λ k has. kept' k (kept k has)),
        ((λ k reached. kept' k (taken k reached)), taken'),
        λ fuel fuel' rest e.
            run (r' + fuel) fuel' (visits ++ rest) (omega arith) ∙ run' fuel (r' + fuel) rest refl,
      )

  children-AreReady :
      (self : SectionsDag) (depth : ℕ) (node : m.Node) (children : List m.Node)
      → IsNode other node
      → Depth other (key_of node) depth
      → has_key self (key_of node) ≡ true
      → All (λ child. In child (m.parents other.dag (m.hash node))) children
      → AreReady self (suc depth) (map (λ child. (key_of node, child)) children)
  children-AreReady self depth node [] e deep has all = tt
  children-AreReady self depth node (child ∷ children) e deep has (i, all) =
      let (at_node, parent) = lower-parent other g node child e i in
      (
        (
          has,
          at_node,
          (signed_by other child (key_of node) g.valid at_node parent, parent),
          above (key_of child) (key_of node) depth parent deep,
        ),
        children-AreReady self depth node children e deep has all,
      )

  below-AreReady :
      (self : SectionsDag) (depth : ℕ) (node : m.Node)
      → IsNode other node
      → Depth other (key_of node) depth
      → has_key self (key_of node) ≡ true
      → AreReady self (suc depth) (below node)
  unfolding child_nodes
  below-AreReady self depth node e deep has =
      All-reverse (λ v. IsReady self (suc depth) v) _
        (children-AreReady self depth node (child_nodes other (m.hash node)) e deep has
          (All-of_In (λ child. In child (child_nodes other (m.hash node))) _ (λ child i. i)))

  child-IsTaken :
      (self : SectionsDag) (node lower : m.Node) (children : List m.Node)
      → All (λ v. IsTaken self v) (map (λ child. (key_of node, child)) children)
      → In lower children
      → (k : PublicKey) → Reaches other lower k
      → has_key self k ≡ true
  child-IsTaken self node lower [] taken i k reached = absurd i
  child-IsTaken self node lower (child ∷ children) (t, taken) (inl e) k reached =
      t k (subst (λ n. Reaches other n k) e reached)
  child-IsTaken self node lower (child ∷ children) (t, taken) (inr i) k reached =
      child-IsTaken self node lower children taken i k reached

  node-IsTaken :
      (self : SectionsDag) (parent : PublicKey) (node : m.Node)
      → has_key self (key_of node) ≡ true
      → All (λ v. IsTaken self v) (below node)
      → IsTaken self (parent, node)
  node-IsTaken self parent node has taken k (itself _ _ e) = rw (← e) has
  node-IsTaken self parent node has taken k (further _ lower _ i reached) =
      child-IsTaken self node lower (child_nodes other (m.hash node))
        (All-of_reverse (λ v. IsTaken self v) _ taken) i k reached

  -- A node and all below it: the DAG has no more levels than keys.
  pub visit-Done :
      (levels depth : ℕ)
      → length other.hashes < levels + depth
      → (self : SectionsDag) (v : Visit) → IsReady self depth v
      → Done self (v ∷ [])
  unfolding merge_loop
  visit-Done zero depth enough self (parent, node) (has, e, edge, deep) =
      let (line, l, bound) =
        g.lineage (key_of node) (m.hash node) (g.valid.keyed (m.hash node) node e) in
      absurd (
        omega (
          arith,
          Depth-unique other (key_of node) depth (length line) deep
              (Depth-of other (key_of node) line l),
        ))
  visit-Done (suc levels) depth enough self (parent, node) (has, e, edge, deep) =
      let (mid, inserted, there, kept) = insert_visit self parent node has edge.0 in
      let (r, self', kept', taken, run) =
        visits-Done (suc depth) (visit-Done levels (suc depth) (omega arith)) mid (below node)
          (below-AreReady mid depth node e deep there) in
      (
        suc r,
        self',
        (λ k old. kept' k (kept k old)),
        (node-IsTaken self' parent node (kept' (key_of node) there) taken, tt),
        step-run self mid self' parent node r inserted run,
      )
