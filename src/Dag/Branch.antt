-- ===== src/Dag/Branch.antt =====
-- The branch of a grown DAG that `partial_dag` walks up: each node is signed by the one above it, and
-- the keys have different depths.
use safe_network_archive.Dag.{
  SectionsDag, SectionInfo, key_of, sig_of, verify_sig, parent_node, get_parent_key,
}
use safe_network_archive.Dag.Chain.{
  IsGrown, Lineage, root, child, get_parent_key_of, get_parent_key_genesis,
}
use safe_network_archive.Dag.Valid.{IsValid, parent_node-signed}
use safe_network_archive.Dag.Walk.{branch_loop}
use safe_network_archive.Extern.{BlsKeys, PublicKey, keys_ord, MerkleReg}
use safe_network_archive.Prelude.{
  ℕ, zero, suc, ◌≡◌, ◌≢◌, refl, sym, ap, ◌∙◌, subst, ◌⊎◌, inl, inr, true, List, [], ◌∷◌, Option,
  none, some, ok, ◌=?◌, eq_of_=?, length, Bool-cases,
}

module _ ⦃b : BlsKeys⦄ ⦃m : MerkleReg SectionInfo⦄ (self : SectionsDag) where
  -- How many signers a key has: at most one number.
  pub data Depth : PublicKey → ℕ → Type 0 where
    bottom : (k : PublicKey) → k ≡ self.genesis_key → Depth k 0
    above :
        (k p : PublicKey) (n : ℕ)
        → get_parent_key self k ≡ ok (some p)
        → Depth p n
        → Depth k (suc n)

  pub Depth-unique : (k : PublicKey) (i j : ℕ) → Depth k i → Depth k j → i ≡ j
  Depth-unique k zero zero (bottom _ e) (bottom _ f) = refl
  Depth-unique k zero (suc j) (bottom _ e) (above _ p _ f d) =
      absurd (cc (get_parent_key_genesis self k e, f))
  Depth-unique k (suc i) zero (above _ p _ f d) (bottom _ e) =
      absurd (cc (get_parent_key_genesis self k e, f))
  Depth-unique k (suc i) (suc j) (above _ p _ e c) (above _ q _ f d) =
      let same : p ≡ q = cc (e, f) in ap suc (Depth-unique q i j (subst (λ z. Depth z i) same c) d)

  pub Depth-of :
      (k : PublicKey) (line : List PublicKey) → Lineage self k line → Depth k (length line)
  Depth-of k line (root _ e) = bottom k e
  Depth-of k line (child _ p n line' e f g l) = above k p (length line') e (Depth-of p line' l)

  -- Each node is signed by the key before it, which the DAG has as its parent.
  abbrev pub Edge : PublicKey → m.Node → Type 0
  Edge parent n =
      (verify_sig parent (key_of n) (sig_of n) ≡ true)
      × (get_parent_key self (key_of n) ≡ ok (some parent))

  abbrev pub Descends : PublicKey → List m.Node → Type 0
  Descends parent [] = Unit {0}
  Descends parent (n ∷ ns) = Edge parent n × Descends (key_of n) ns

  abbrev pub end_of : PublicKey → List m.Node → PublicKey
  end_of k [] = k
  end_of k (n ∷ ns) = end_of (key_of n) ns

  -- A node of the DAG with the parent that it has there.
  pub parent_cases :
      (n : m.Node)
      → IsValid self
      → m.node self.dag (m.hash n) ≡ some n
      → ((parent_node self (m.hash n) ≡ none) × Edge self.genesis_key n)
        ⊎ ((p : m.Node) × (parent_node self (m.hash n) ≡ some p)
            × (m.node self.dag (m.hash p) ≡ some p)
            × Edge (key_of p) n)
  parent_cases n v e =
      let keyed = v.keyed (m.hash n) n e in
      let above : key_of n ≢ self.genesis_key = λ q. cc (v.no_genesis, keyed, q) in
      let parent = λ (o : Option m.Node) (q : parent_node self (m.hash n) ≡ o).
        get_parent_key_of self (key_of n) (m.hash n) o above keyed q in
      elim (v.signed (m.hash n) n e) [
        | inl (c, s) ↦ elim (parent_node-signed self v (m.hash n) n e) [
          | inl (_, q) ↦ inl (q, (s, parent none q))
          | inr (h, p, c', _, _) ↦ absurd (cc (c, c'))
        ]
        | inr (h, p, c, f, s) ↦ elim (parent_node-signed self v (m.hash n) n e) [
          | inl (c', q) ↦ absurd (cc (c, c'))
          | inr (k, p', c', f', q) ↦
              let same_hash : h ≡ k = cc (c, c') in
              let same : p ≡ p' = cc (f, f', same_hash) in
              let at_hash =
                subst (λ z. m.node self.dag z ≡ some p) (sym (m.node-hash self.dag h p f)) f in
              inr
                (p, q ∙ ap some (sym same), at_hash, (s, parent (some p) (q ∙ ap some (sym same))))
        ]
      ]

  -- What `branch_loop` returns: the nodes from below `from` down to the one that it started at.
  abbrev pub Branch : PublicKey → PublicKey → List m.Node → Type 0
  Branch from to ops = Descends from ops × (end_of from ops ≡ to) × ((n : ℕ) × Depth from n)

  abbrev pub IsNode : m.Node → Type 0
  IsNode n = m.node self.dag (m.hash n) ≡ some n

  pub branch_loop-Branch :
      (fuel : ℕ) (from : PublicKey) (node : m.Node) (ops ops' : List m.Node)
      → IsGrown self
      → IsNode node
      → Descends (key_of node) ops
      → branch_loop fuel self from node ops ≡ some (ok ops')
      → Branch from (end_of (key_of node) ops) ops'
  unfolding branch_loop
  branch_loop-Branch zero from node ops ops' g e d h = absurd (cc h)
  branch_loop-Branch (suc fuel) from node ops ops' g e d h =
      elim (Bool-cases (key_of node =? from)) [
        | inl y ↦
            let stopped : ops ≡ ops' = cc (rw (y, branch_loop) at h) in
            let (line, l, _) =
              g.lineage (key_of node) (m.hash node) (g.valid.keyed (m.hash node) node e) in
            rw (← eq_of_=? (key_of node) from y, ← stopped)
              (d, refl, (length line, Depth-of (key_of node) line l))
        | inr z ↦ elim (parent_cases node g.valid e) [
          | inr (p, q, e', edge) ↦
              branch_loop-Branch fuel from p (node ∷ ops) ops' g e' (edge, d)
                (rw (z, branch_loop, q) at h)
          | inl (q, edge) ↦ elim (Bool-cases (from =? self.genesis_key)) [
            | inl w ↦
                let stopped : node ∷ ops ≡ ops' = cc (rw (z, branch_loop, q, w) at h) in
                rw (eq_of_=? from self.genesis_key w, ← stopped)
                  ((edge, d), refl, (0, bottom self.genesis_key refl))
            | inr w ↦ absurd (cc (rw (z, branch_loop, q, w) at h))
          ]
        ]
      ]
