-- ===== src/Dag/Walk.antt =====
-- The walks of `SectionsDAG` over the branches of the DAG. A loop takes fuel, and `none` means that
-- the fuel ran out; `Dag.Chain` shows how much is enough.
use mathlib.Core.List.{reverse}
use safe_network_archive.Dag.{
  SectionsDag, SectionInfo, new, key_of, sig_of, verify_sig, get_hash, get_node, parent_node,
  child_nodes, has_key, non_genesis_leaf_sections, get_parent_key, insert_trusted_key,
  verify_and_insert, insert_node,
}
use safe_network_archive.Errors.{Outcome, invalid_branch, untrusted_proof_chain, key_not_found}
use safe_network_archive.Extern.{BlsKeys, PublicKey, keys_ord, MerkleReg}
use safe_network_archive.Prelude.{
  ℕ, zero, suc, Bool, true, false, not, List, [], ◌∷◌, ◌++◌, map, Option, none, some, ok, err,
  ◌>>=◌, ◌=?◌, if◌then◌else◌,
}
use safe_network_archive.Prelude.Sets

module _ ⦃b : BlsKeys⦄ ⦃m : MerkleReg SectionInfo⦄ where
  -- The loop of `get_ancestors`, over its variables `key` and `ancestors`.
  unfoldable pub ancestors_loop :
      ℕ → SectionsDag → PublicKey → List PublicKey → Option (Outcome (List PublicKey))
  ancestors_loop zero self key ancestors = none
  ancestors_loop (suc fuel) self key ancestors = elim (get_parent_key self key) [
    | err e ↦ some (err e)
    | ok none ↦ some (ok ancestors)
    | ok (some parent) ↦ ancestors_loop fuel self parent (ancestors ++ parent ∷ [])
  ]

  unfoldable pub get_ancestors : ℕ → SectionsDag → PublicKey → Option (Outcome (List PublicKey))
  unfolding ancestors_loop
  get_ancestors fuel self key = ancestors_loop fuel self key []

  -- The loop of `self_verify` for one leaf: the verdict, and the keys that are verified by then.
  unfoldable pub verify_branch :
      ℕ → SectionsDag → List PublicKey → PublicKey → Option (Bool × List PublicKey)
  verify_branch zero self verified key = none
  verify_branch (suc fuel) self verified key = elim (get_parent_key self key) [
    | ok (some parent) ↦ elim (get_node self key) [
      | err e ↦ some (false, verified)
      | ok node ↦ elim (verify_sig parent key (sig_of node)) [
        | false ↦ some (false, verified)
        | true ↦ elim (Sets.contains parent (Sets.insert key verified)) [
          | true ↦ some (true, Sets.insert key verified)
          | false ↦ verify_branch fuel self (Sets.insert key verified) parent
        ]
      ]
    ]
    | ok none ↦ some (false, verified)
    | err e ↦ some (false, verified)
  ]

  -- `all` stops at the first leaf that fails.
  unfoldable pub verify_leaves : ℕ → SectionsDag → List PublicKey → List SectionInfo → Option Bool
  unfolding verify_branch
  verify_leaves fuel self verified [] = some true
  verify_leaves fuel self verified (section ∷ sections) =
      elim (verify_branch fuel self verified (SectionInfo.key section)) [
        | none ↦ none
        | some (false, verified') ↦ some false
        | some (true, verified') ↦ verify_leaves fuel self verified' sections
      ]

  unfoldable pub self_verify : ℕ → SectionsDag → Option Bool
  unfolding verify_leaves
  self_verify fuel self =
      verify_leaves fuel self (self.genesis_key ∷ []) (non_genesis_leaf_sections self)

  -- The loop of `partial_dag` from `to` up to `from`. The nodes pushed to `crdt_ops` are taken in
  -- reverse afterwards, so here each one goes to the front.
  unfoldable pub branch_loop :
      ℕ → SectionsDag → PublicKey → m.Node → List m.Node → Option (Outcome (List m.Node))
  branch_loop zero self from node ops = none
  branch_loop (suc fuel) self from node ops = elim (key_of node =? from) [
    | true ↦ some (ok ops)
    | false ↦ elim (parent_node self (m.hash node)) [
      | some parent ↦ branch_loop fuel self from parent (node ∷ ops)
      | none ↦ some (if from =? self.genesis_key then ok (node ∷ ops) else err invalid_branch)
    ]
  ]

  -- The nodes of a branch, inserted one below the other.
  unfoldable pub replay : SectionsDag → PublicKey → List m.Node → Outcome SectionsDag
  replay dag parent [] = ok dag
  replay dag parent (node ∷ nodes) = do
    dag' ← insert_trusted_key dag parent (key_of node) (sig_of node)
    replay dag' (key_of node) nodes

  unfoldable pub partial_dag :
      ℕ → SectionsDag → PublicKey → PublicKey → Option (Outcome SectionsDag)
  unfolding branch_loop replay
  partial_dag fuel self from to = elim (to =? self.genesis_key) [
    | true ↦ some (if not (from =? self.genesis_key) then err invalid_branch else ok (new from))
    | false ↦ elim (get_node self to) [
      | err e ↦ some (err e)
      | ok node ↦ elim (branch_loop fuel self from node []) [
        | none ↦ none
        | some (err e) ↦ some (err e)
        | some (ok ops) ↦ some (replay (new from) from ops)
      ]
    ]
  ]

  -- The loop of `single_branch_dag_for_key`: always the first child.
  unfoldable pub extend_loop :
      ℕ → SectionsDag → SectionsDag → PublicKey → Option (Outcome (SectionsDag × PublicKey))
  extend_loop zero self partial last_key = none
  extend_loop (suc fuel) self partial last_key = elim (get_hash self last_key) [
    | err e ↦ some (err e)
    | ok hash ↦ elim (child_nodes self hash) [
      | [] ↦ some (ok (partial, last_key))
      | child ∷ others ↦ elim (verify_and_insert partial last_key (key_of child) (sig_of child)) [
        | err e ↦ some (err e)
        | ok partial' ↦ extend_loop fuel self partial' (key_of child)
      ]
    ]
  ]

  -- `single_branch_dag_for_key` once `last_key` is chosen.
  unfoldable pub branch_through :
      ℕ → SectionsDag → PublicKey → Option (Outcome (SectionsDag × PublicKey))
  unfolding partial_dag extend_loop
  branch_through fuel self last_key = elim (partial_dag fuel self self.genesis_key last_key) [
    | none ↦ none
    | some (err e) ↦ some (err e)
    | some (ok partial) ↦ extend_loop fuel self partial last_key
  ]

  unfoldable pub single_branch_dag_for_key :
      ℕ → SectionsDag → PublicKey → Option (Outcome (SectionsDag × PublicKey))
  unfolding branch_through
  single_branch_dag_for_key fuel self key =
      if self.genesis_key =? key
      then elim self.dag_root [
        | [] ↦ some (ok (new key, key))
        | child_key ∷ others ↦ branch_through fuel self child_key
      ]
      else branch_through fuel self key

  -- `merge` works on a stack: the last entry is the next one, so the head stands for the last.
  unfoldable pub first_visits : SectionsDag → List PublicKey → Outcome (List (PublicKey × m.Node))
  first_visits other [] = ok []
  first_visits other (key ∷ rest) = do
    node ← get_node other key
    visits ← first_visits other rest
    ok ((other.genesis_key, node) ∷ visits)

  -- The state is kept when an insertion fails half way.
  unfoldable pub merge_loop :
      ℕ
      → SectionsDag
      → SectionsDag
      → List (PublicKey × m.Node)
      → Option (SectionsDag × Outcome (Unit {0}))
  merge_loop zero other self visits = none
  merge_loop (suc fuel) other self [] = some (self, ok tt)
  merge_loop (suc fuel) other self ((parent_key, node) ∷ visits) =
      elim (insert_node self parent_key node) [
        | err e ↦ some (self, err e)
        | ok self' ↦ merge_loop fuel other self' (
            reverse (map (λ child. (key_of node, child)) (child_nodes other (m.hash node)))
            ++ visits)
      ]

  unfoldable pub insert_all :
      ℕ → SectionsDag → SectionsDag → Option (SectionsDag × Outcome (Unit {0}))
  unfolding first_visits merge_loop
  insert_all fuel self other = elim (first_visits other other.dag_root) [
    | err e ↦ some (self, err e)
    | ok visits ↦ merge_loop fuel other self (reverse visits)
  ]

  -- Where the other DAG is the larger one, the two are swapped first.
  unfoldable pub merge : ℕ → SectionsDag → SectionsDag → Option (SectionsDag × Outcome (Unit {0}))
  unfolding self_verify insert_all
  merge fuel self other = elim (self_verify fuel other) [
    | none ↦ none
    | some false ↦ some (self, err untrusted_proof_chain)
    | some true ↦
        if has_key self other.genesis_key
        then insert_all fuel self other
        else if has_key other self.genesis_key
        then insert_all fuel other self
        else some (self, err (key_not_found self.genesis_key))
  ]
