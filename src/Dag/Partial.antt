-- ===== src/Dag/Partial.antt =====
-- `partial_dag`: the branch of a grown DAG from one of its keys down to another is a grown DAG of its
-- own, which ends at that key.
use safe_network_archive.Dag.{
  SectionsDag, SectionInfo, new, key_of, sig_of, has_key, get_node, get_parent_key, last_key,
  insert_trusted_key, verify_and_insert,
}
use safe_network_archive.Dag.Chain.{
  IsGrown, Lineage, root, child, new-IsGrown, get_node_inv, get_node_of,
}
use safe_network_archive.Dag.Insert.{
  verify_and_insert-IsGrown, verify_and_insert-ok_iff, has_key-verify_and_insert,
}
use safe_network_archive.Dag.Tip.{last_key-IsTip, last_key-empty}
use safe_network_archive.Dag.Valid.{IsValid}
use safe_network_archive.Dag.Branch.{
  Depth, bottom, above, Depth-unique, Edge, Descends, end_of, Branch, IsNode, branch_loop-Branch,
  parent_cases,
}
use safe_network_archive.Dag.Extend.{Tipped, insert_trusted_key-Extended}
use safe_network_archive.Dag.Roots.{HasRoots, new-HasRoots, verify_and_insert-HasRoots}
use safe_network_archive.Dag.Walk.{branch_loop, replay, partial_dag}
use safe_network_archive.Errors.{Outcome, invalid_branch}
use safe_network_archive.Extern.{BlsKeys, PublicKey, keys_ord, MerkleReg}
use safe_network_archive.Prelude.{
  ℕ, zero, suc, ◌≤◌, ◌<◌, ◌≡◌, refl, sym, ap, ◌∙◌, subst, ◌⊎◌, inl, inr, true, false, List, [], ◌∷◌,
  some, ok, err, fueled_cases, ◌=?◌, =?-refl, eq_of_=?, length, arith, Bool-cases, Option-cases,
}
use safe_network_archive.Prelude.Map

module _ ⦃b : BlsKeys⦄ ⦃m : MerkleReg SectionInfo⦄ (self : SectionsDag) where
  -- A DAG that holds the branch of `self` from `from` down to `parent`, and no key that is deeper.
  abbrev Follows : SectionsDag → PublicKey → PublicKey → ℕ → Type 0
  Follows dag from parent n =
      IsGrown dag
      × (dag.genesis_key ≡ from)
      × (has_key dag parent ≡ true)
      × Depth self parent n
      × ((j : PublicKey) → has_key dag j ≡ true → (i : ℕ) × Depth self j i × (i ≤ n))
      × Tipped dag parent
      × HasRoots dag

  new-Follows : (from : PublicKey) (n : ℕ) → Depth self from n → Follows (new from) from from n
  unfolding new has_key Map.contains_key Map.get
  new-Follows from n d = (
    new-IsGrown from,
    refl,
    ground (arith, =?-refl from),
    d,
    λ j h. (n, rw (eq_of_=? j from (ground arith)) d, omega arith),
    inl (refl, λ node e. cc (m.node-new (m.hash node), e)),
    new-HasRoots from,
  )

  -- A key one deeper is not there yet.
  deeper-absent :
      (dag : SectionsDag) (from parent key : PublicKey) (n : ℕ)
      → Follows dag from parent n
      → get_parent_key self key ≡ ok (some parent)
      → has_key dag key ≡ false
  deeper-absent dag from parent key n (g, _, has, d, depths, t, roots) e =
      elim (Bool-cases (has_key dag key)) [
        | inr z ↦ z
        | inl y ↦
            let (i, di, le) = depths key y in
            absurd (omega (arith, Depth-unique self key i (suc n) di (above key parent n e d)))
      ]

  extend :
      (dag : SectionsDag) (from parent : PublicKey) (node : m.Node) (n : ℕ)
      → Follows dag from parent n
      → Edge self parent node
      → (dag' : SectionsDag) × (insert_trusted_key dag parent (key_of node) (sig_of node) ≡ ok dag')
        × Follows dag' from (key_of node) (suc n)
  unfolding verify_and_insert
  extend dag from parent node n f (s, e) =
      let key = key_of node in
      let sig = sig_of node in
      let (g, start, has, d, depths, t, roots) = f in
      let absent = deeper-absent dag from parent key n f e in
      let (dag', ok_dag) = (verify_and_insert-ok_iff dag parent key sig).1 (s, has) in
      let inserted : insert_trusted_key dag parent key sig ≡ ok dag' =
        rw (s, verify_and_insert) at ok_dag in
      let keys = λ (j : PublicKey). has_key-verify_and_insert dag parent key sig dag' j ok_dag in
      let (tip, same) = insert_trusted_key-Extended dag g parent key sig absent s dag' t inserted in
      (
        dag',
        inserted,
        (
          verify_and_insert-IsGrown dag parent key sig dag' g absent ok_dag,
          same ∙ start,
          ground (arith, keys key, =?-refl key),
          above key parent n e d,
          λ j h. elim (Bool-cases (key =? j)) [
            | inl y ↦ (suc n, rw (← eq_of_=? key j y) (above key parent n e d), omega arith)
            | inr z ↦ let (i, di, le) = depths j (ground (arith, keys j)) in (i, di, omega arith)
          ],
          tip,
          verify_and_insert-HasRoots dag dag' parent key sig g absent ok_dag roots,
        ),
      )

  -- What a DAG that follows a branch shows at its end.
  abbrev Ends : SectionsDag → PublicKey → PublicKey → Type 0
  Ends dag from to =
      IsGrown dag
      × (dag.genesis_key ≡ from)
      × (has_key dag to ≡ true)
      × (last_key dag ≡ ok to)
      × HasRoots dag

  Follows-Ends :
      (dag : SectionsDag) (from to : PublicKey) (n : ℕ) → Follows dag from to n → Ends dag from to
  Follows-Ends dag from to n (g, start, has, _, _, inl (k, empty), roots) =
      (g, start, has, rw k (last_key-empty dag empty), roots)
  Follows-Ends dag from to n (g, start, has, _, _, inr (p, k, tip), roots) =
      (g, start, has, rw (← k) (last_key-IsTip dag p tip), roots)

  replay-Ends :
      (dag : SectionsDag) (from parent : PublicKey) (n : ℕ) (nodes : List m.Node)
      → Follows dag from parent n
      → Descends self parent nodes
      → (dag' : SectionsDag) × (replay dag parent nodes ≡ ok dag')
        × Ends dag' from (end_of self parent nodes)
  unfolding replay
  replay-Ends dag from parent n [] f d = (dag, refl, Follows-Ends dag from parent n f)
  replay-Ends dag from parent n (node ∷ nodes) f (e, d) =
      let (next, inserted, f') = extend dag from parent node n f e in
      let (dag', replayed, ends) = replay-Ends next from (key_of node) (suc n) nodes f' d in
      (dag', rw (replay, inserted) replayed, ends)

  -- The replay of what `branch_loop` collected.
  Branch-Ends :
      (from to : PublicKey) (nodes : List m.Node)
      → Branch self from to nodes
      → (dag' : SectionsDag) × (replay (new from) from nodes ≡ ok dag') × Ends dag' from to
  Branch-Ends from to nodes (d, e, (n, depth)) =
      let (dag', replayed, ends) =
        replay-Ends (new from) from from n nodes (new-Follows from n depth) d in
      (dag', replayed, rw (← e) ends)

  -- The node of a key.
  pub key-IsNode :
      (k : PublicKey) (n : m.Node)
      → IsValid self
      → get_node self k ≡ ok n
      → IsNode self n × (key_of n ≡ k)
  key-IsNode k n v e =
      let (h, f, at_hash) = get_node_inv self k n e in
      let (n', at_hash', q) = v.noded k h f in
      let same : n ≡ n' = cc (at_hash, at_hash') in
      (
        subst (λ z. m.node self.dag z ≡ some n) (sym (m.node-hash self.dag h n at_hash)) at_hash,
        ap key_of same ∙ q,
      )

  from_node :
      (fuel : ℕ) (from to : PublicKey) (node : m.Node) (dag' : SectionsDag)
      → IsGrown self
      → IsNode self node × (key_of node ≡ to)
      → (ops : List m.Node) → branch_loop fuel self from node [] ≡ some (ok ops)
      → replay (new from) from ops ≡ ok dag'
      → Ends dag' from to
  from_node fuel from to node dag' g (e, k) ops walked replayed =
      let branch = branch_loop-Branch self fuel from node [] ops g e tt walked in
      let (dag, replayed', ends) = Branch-Ends from to ops (rw (← k) branch) in
      let same : dag ≡ dag' = cc (replayed, replayed') in subst (λ z. Ends z from to) same ends

  start_node :
      (fuel : ℕ) (from to : PublicKey) (dag' : SectionsDag)
      → IsGrown self
      → (to =? self.genesis_key) ≡ false
      → (o : Outcome m.Node) → get_node self to ≡ o
      → partial_dag fuel self from to ≡ some (ok dag')
      → Ends dag' from to
  unfolding partial_dag
  start_node fuel from to dag' g z (err e) q h = absurd (cc (rw (partial_dag, z, q) at h))
  start_node fuel from to dag' g z (ok node) q h =
      elim (fueled_cases (branch_loop fuel self from node [])) [
        | inl w ↦ absurd (cc (rw (partial_dag, z, q, w) at h))
        | inr (inl (e, w)) ↦ absurd (cc (rw (partial_dag, z, q, w) at h))
        | inr (inr (ops, w)) ↦
            from_node fuel from to node dag' g (key-IsNode to node g.valid q) ops w
              (cc (rw (partial_dag, z, q, w) at h))
      ]

  partial_dag-holds_all :
      (fuel : ℕ) (from to : PublicKey) (dag' : SectionsDag)
      → IsGrown self
      → partial_dag fuel self from to ≡ some (ok dag')
      → Ends dag' from to
  unfolding partial_dag
  partial_dag-holds_all fuel from to dag' g h = elim (Bool-cases (to =? self.genesis_key)) [
    | inr z ↦ start_node fuel from to dag' g z (get_node self to) refl h
    | inl y ↦ elim (Bool-cases (from =? self.genesis_key)) [
      | inr z ↦ absurd (cc (rw (partial_dag, y, z) at h))
      | inl w ↦
          let here : new from ≡ dag' = cc (rw (partial_dag, y, w) at h) in
          let root_key = eq_of_=? from self.genesis_key w in
          let same : from ≡ to = root_key ∙ sym (eq_of_=? to self.genesis_key y) in
          let ends =
            Follows-Ends (new from) from from 0 (new-Follows from 0 (bottom from root_key)) in
          subst (λ z. Ends dag' from z) same (subst (λ z. Ends z from from) here ends)
    ]
  ]

  -- When `partial_dag` of a grown DAG returns a DAG, that is grown too, its genesis key is the key that
  -- it was asked to start from, and its last key is the key that it was asked to end at.
  pub partial_dag-Ends :
      (fuel : ℕ) (from to : PublicKey) (dag' : SectionsDag)
      → IsGrown self
      → partial_dag fuel self from to ≡ some (ok dag')
      → IsGrown dag'
        × (dag'.genesis_key ≡ from)
        × (has_key dag' to ≡ true)
        × (last_key dag' ≡ ok to)
  partial_dag-Ends fuel from to dag' g h =
      let (grown, start, has, end, _) = partial_dag-holds_all fuel from to dag' g h in
      (grown, start, has, end)

  pub partial_dag-HasRoots :
      (fuel : ℕ) (from to : PublicKey) (dag' : SectionsDag)
      → IsGrown self
      → partial_dag fuel self from to ≡ some (ok dag')
      → HasRoots dag'
  partial_dag-HasRoots fuel from to dag' g h = (partial_dag-holds_all fuel from to dag' g h).4

  -- The loop ends above the last node, with an error where it did not meet `from`.
  branch_loop-total :
      (fuel : ℕ) (from : PublicKey) (node : m.Node) (line : List PublicKey) (ops : List m.Node)
      → IsValid self
      → IsNode self node
      → Lineage self (key_of node) line
      → length line < fuel
      → ((ops' : List m.Node) × (branch_loop fuel self from node ops ≡ some (ok ops')))
        ⊎ (((from =? self.genesis_key) ≡ false)
            × (branch_loop fuel self from node ops ≡ some (err invalid_branch)))
  unfolding branch_loop
  branch_loop-total zero from node line ops v e l h = absurd (omega arith)
  branch_loop-total (suc fuel) from node line ops v e (root _ r) h =
      absurd (cc (v.no_genesis, r, v.keyed (m.hash node) node e))
  branch_loop-total (suc fuel) from node line ops v e (child _ p n line' f g s l) h =
      elim (Bool-cases (key_of node =? from)) [
        | inl y ↦ inl (ops, rw (branch_loop, y))
        | inr z ↦ elim (parent_cases self node v e) [
          | inl (q, _) ↦ elim (Bool-cases (from =? self.genesis_key)) [
            | inl w ↦ inl (node ∷ ops, rw (branch_loop, z, q, w))
            | inr w ↦ inr (w, rw (branch_loop, z, q, w))
          ]
          | inr (p', q, e', (_, parent)) ↦
              let same : p ≡ key_of p' = cc (f, parent) in
              let l' = subst (λ z. Lineage self z line') same l in
              elim (branch_loop-total fuel from p' line' (node ∷ ops) v e' l' (omega arith)) [
                | inl (ops', walked) ↦ inl (ops', rw (branch_loop, z, q) walked)
                | inr (w, failed) ↦ inr (w, rw (branch_loop, z, q) failed)
              ]
        ]
      ]

  abbrev Returns : ℕ → PublicKey → PublicKey → Type 0
  Returns fuel from to =
      ((dag' : SectionsDag) × (partial_dag fuel self from to ≡ some (ok dag')))
      ⊎ (((from =? self.genesis_key) ≡ false)
          × (partial_dag fuel self from to ≡ some (err invalid_branch)))

  from_found :
      (fuel : ℕ) (from to : PublicKey) (node : m.Node) (line : List PublicKey)
      → IsGrown self
      → (to =? self.genesis_key) ≡ false
      → get_node self to ≡ ok node
      → Lineage self to line
      → length line < fuel
      → Returns fuel from to
  unfolding partial_dag
  from_found fuel from to node line g z found l enough =
      let (at_node, k) = key-IsNode to node g.valid found in
      let l' = subst (λ z. Lineage self z line) (sym k) l in
      elim (branch_loop-total fuel from node line [] g.valid at_node l' enough) [
        | inr (w, failed) ↦ inr (w, rw (partial_dag, z, found, failed))
        | inl (ops, walked) ↦
            let branch = branch_loop-Branch self fuel from node [] ops g at_node tt walked in
            let (dag', replayed, _) = Branch-Ends from (key_of node) ops branch in
            inl (dag', rw (partial_dag, z, found, walked, replayed))
      ]

  -- Down to a key of a grown DAG, with one round more than the DAG has keys, `partial_dag` returns a
  -- DAG, or the error `InvalidBranch` where it is not asked to start from the genesis key.
  pub partial_dag-total :
      (fuel : ℕ) (from to : PublicKey)
      → IsGrown self
      → has_key self to ≡ true
      → length self.hashes < fuel
      → ((dag' : SectionsDag) × (partial_dag fuel self from to ≡ some (ok dag')))
        ⊎ (((from =? self.genesis_key) ≡ false)
            × (partial_dag fuel self from to ≡ some (err invalid_branch)))
  unfolding partial_dag has_key Map.contains_key
  partial_dag-total fuel from to g has enough = elim (Bool-cases (to =? self.genesis_key)) [
    | inl y ↦ elim (Bool-cases (from =? self.genesis_key)) [
      | inl w ↦ inl (new from, rw (partial_dag, y, w))
      | inr w ↦ inr (w, rw (partial_dag, y, w))
    ]
    | inr z ↦ elim (Option-cases (Map.get to self.hashes)) [
      | inl w ↦ absurd (ground arith)
      | inr (hash, w) ↦
          let (node, e, k) = g.valid.noded to hash w in
          let (line, l, bound) = g.lineage to hash w in
          from_found fuel from to node line g z (get_node_of self to hash node w e) l (omega arith)
    ]
  ]
