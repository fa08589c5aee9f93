-- ===== src/Dag/Merge.antt =====
-- The rounds of `merge` with a grown DAG whose genesis key is in the first one.
use mathlib.Core.List.{reverse}
use safe_network_archive.Dag.{
  SectionsDag, SectionInfo, key_of, has_key, get_node, get_hash, get_parent_key,
}
use safe_network_archive.Dag.Ancestors.{self_verify-IsGrown}
use safe_network_archive.Dag.Branch.{bottom, above, IsNode}
use safe_network_archive.Dag.Chain.{IsGrown, get_node_of}
use safe_network_archive.Dag.Partial.{key-IsNode}
use safe_network_archive.Dag.Roots.{HasRoots}
use safe_network_archive.Dag.Reach.{has_key-FromRoot, same_node}
use safe_network_archive.Dag.Visits.{
  Visit, IsReady, AreReady, IsTaken, KeepsKeys, signed_by, visits-Done, visit-Done,
}
use safe_network_archive.Dag.Walk.{first_visits, merge_loop, insert_all, merge}
use safe_network_archive.Extern.{BlsKeys, PublicKey, keys_ord, MerkleReg}
use safe_network_archive.Prelude.{
  ℕ, zero, suc, ◌+◌, ◌-◌, ◌≤◌, ◌≡◌, refl, sym, ap, subst, ◌∙◌, inl, inr, true, List, [], ◌∷◌,
  append-nil, some, ok, length, In, All, All-reverse, All-of_reverse, All-of_In, All-In, arith,
  Option-cases,
}
use safe_network_archive.Prelude.Map

module _ ⦃b : BlsKeys⦄ ⦃m : MerkleReg SectionInfo⦄ (other : SectionsDag) (g : IsGrown other) where
  -- The node of a root key.
  root_visit :
      (k : PublicKey)
      → get_parent_key other k ≡ ok (some other.genesis_key)
      → (n : m.Node) × (get_node other k ≡ ok n) × IsNode other n × (key_of n ≡ k)
  unfolding get_parent_key get_hash
  root_visit k e = elim (Option-cases (Map.get k other.hashes)) [
    | inl absent ↦ absurd (ground arith)
    | inr (h, there) ↦
        let (n, f, q) = g.valid.noded k h there in
        let found = get_node_of other k h n there f in
        let (at_node, q') = key-IsNode other k n g.valid found in (n, found, at_node, q')
  ]

  -- A visit for every root key, to its node.
  first_visits-AreReady :
      (self : SectionsDag) (keys : List PublicKey)
      → has_key self other.genesis_key ≡ true
      → All (λ k. get_parent_key other k ≡ ok (some other.genesis_key)) keys
      → (visits : List (Visit other g)) × (first_visits other keys ≡ ok visits)
        × AreReady other g self 1 visits
        × ((n : m.Node)
            → IsNode other n
            → In (key_of n) keys
            → In {A = Visit other g} (other.genesis_key, n) visits)
  unfolding first_visits
  first_visits-AreReady self [] has h = ([], refl, tt, λ n e i. i)
  first_visits-AreReady self (k ∷ keys) has (e, h) =
      let (n, found, at_node, q) = root_visit k e in
      let (visits, found', ready, all) = first_visits-AreReady self keys has h in
      let parent = subst (λ z. get_parent_key other z ≡ ok (some other.genesis_key)) (sym q) e in
      (
        (other.genesis_key, n) ∷ visits,
        rw (first_visits, found, found'),
        (
          (
            has,
            at_node,
            (signed_by other n other.genesis_key g.valid at_node parent, parent),
            above (key_of n) other.genesis_key 0 parent (bottom other.genesis_key refl),
          ),
          ready,
        ),
        λ top f i. elim i [
          | inl same ↦ inl (
              ap (λ z. (other.genesis_key, z))
                (same_node other top n g.valid f at_node (same ∙ sym q)))
          | inr j ↦ inr (all top f j)
        ],
      )

  -- A DAG that has all keys of the one before it and of the other one.
  abbrev pub HasBoth : SectionsDag → SectionsDag → Type 0
  HasBoth self self' =
      KeepsKeys other g self self'
      × ((k : PublicKey) → has_key other k ≡ true → has_key self' k ≡ true)

  has_both :
      (self self' : SectionsDag) (visits : List (Visit other g))
      → has_key self other.genesis_key ≡ true
      → HasRoots other
      → KeepsKeys other g self self'
      → All (λ v. IsTaken other g self' v) visits
      → ((n : m.Node)
          → IsNode other n
          → In (key_of n) other.dag_root
          → In {A = Visit other g} (other.genesis_key, n) visits)
      → HasBoth self self'
  has_both self self' visits has roots kept taken all = (
    kept,
    λ k there. elim (has_key-FromRoot other g roots k there) [
      | inl start ↦ rw start (kept other.genesis_key has)
      | inr (r, top, i, at_top, t, reached) ↦
          let visited = all top at_top (subst (λ z. In z other.dag_root) (sym t) i) in
          All-In (λ v. IsTaken other g self' v) (other.genesis_key, top) visits taken visited k
            reached
    ],
  )

  -- The other DAG's genesis key is in the first one, so all visits are made and none fails.
  insert_all-done :
      (self : SectionsDag)
      → has_key self other.genesis_key ≡ true
      → HasRoots other
      → (rounds : ℕ) × (self' : SectionsDag) × HasBoth self self'
        × ((fuel : ℕ) → rounds ≤ fuel → insert_all fuel self other ≡ some (self', ok tt))
  unfolding insert_all merge_loop
  insert_all-done self has roots =
      let below =
        All-of_In (λ k. get_parent_key other k ≡ ok (some other.genesis_key)) other.dag_root
          (λ k i. (roots k).0 i) in
      let (visits, found, ready, all) = first_visits-AreReady self other.dag_root has below in
      let (r, self', kept, taken, run) =
        visits-Done other g 1 (visit-Done other g (length other.hashes) 1 (omega arith)) self
          (reverse visits) (All-reverse (λ v. IsReady other g self 1 v) visits ready) in
      (
        suc r,
        self',
        has_both self self' visits has roots kept
            (All-of_reverse (λ v. IsTaken other g self' v) visits taken) all,
        λ fuel enough.
            rw (insert_all, found)
              (ap (merge_loop fuel other self) (sym (append-nil (reverse visits)))
                ∙ run (fuel - r) fuel [] (omega arith)
                ∙ finished self' (fuel - r) (omega arith)),
      )
    where
      finished :
          (dag : SectionsDag) (fuel : ℕ)
          → 1 ≤ fuel
          → merge_loop fuel other dag [] ≡ some (dag, ok tt)
      finished dag zero h = absurd (omega arith)
      finished dag (suc fuel) h = refl

  -- When a DAG has the genesis key of a grown DAG, `merge` takes that whole one, in some number of
  -- rounds.
  pub merge-done :
      (self : SectionsDag)
      → has_key self other.genesis_key ≡ true
      → HasRoots other
      → (fuel : ℕ) × (self' : SectionsDag) × (merge fuel self other ≡ some (self', ok tt))
        × HasBoth self self'
  unfolding merge
  merge-done self has roots =
      let (r, self', both, run) = insert_all-done self has roots in
      let fuel = suc (r + length other.hashes) in
      let verified = self_verify-IsGrown other fuel g (omega arith) in
      (fuel, self', rw (merge, verified, has) (run fuel (omega arith)), both)
