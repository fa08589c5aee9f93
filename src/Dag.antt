-- ===== src/Dag.antt =====
-- `SectionsDAG` of sn_interface/src/network_knowledge/sections_dag.rs: a Merkle DAG of section keys,
-- each signed by its parent key. The state, the reads and the insertions stand here, the walks over
-- a branch in `Walk`, and the proofs in the other children.
pub mod Ancestors
pub mod Branch
pub mod Extend
pub mod Chain
pub mod Cycle
pub mod Grow
pub mod Insert
pub mod Partial
pub mod Tip
pub mod Valid
pub mod Walk
pub mod Wire
pub mod Keep
pub mod ReadBack
pub mod Cover
pub mod RoundTrip
pub mod Roots
pub mod Merge
pub mod Reach
pub mod Visits
use mathlib.Core.List.{head?}
use mathlib.Core.Option
use safe_network_archive.Errors.{
  Error, Outcome, invalid_signature, key_not_found, multiple_branch_error,
}
use safe_network_archive.Extern.{BlsKeys, PublicKey, Signature, keys_ord, MerkleReg}
use safe_network_archive.Prelude.{
  ℕ, Bool, true, false, not, ◌||◌, List, [], ◌∷◌, map, Option, none, some, Result, ok, err, ◌>>=◌,
  ok_or, ◌=?◌, if◌then◌else◌, any,
}
use safe_network_archive.Prelude.Map
use safe_network_archive.Prelude.Sets

module _ ⦃b : BlsKeys⦄ where
  pub record SectionInfo : Type 0 where
    pub key : PublicKey
    pub sig : Signature

  unfoldable pub verify_sig : PublicKey → PublicKey → Signature → Bool
  verify_sig parent_key section_key sig = elim (b.serialize section_key) [
    | none ↦ false
    | some bytes ↦ b.verify parent_key sig bytes
  ]

  module _ ⦃m : MerkleReg SectionInfo⦄ where
    pub record SectionsDag : Type 0 where
      pub genesis_key : PublicKey
      pub dag : m.Reg
      pub dag_root : List PublicKey
      pub hashes : List (PublicKey × m.Hash)

    unfoldable pub new : PublicKey → SectionsDag
    new genesis_key = record { genesis_key = genesis_key; dag = m.new; dag_root = []; hashes = [] }

    abbrev pub key_of : m.Node → PublicKey
    key_of n = SectionInfo.key (m.value n)

    abbrev pub sig_of : m.Node → Signature
    sig_of n = SectionInfo.sig (m.value n)

    unfoldable pub get_hash : SectionsDag → PublicKey → Outcome m.Hash
    get_hash self key = ok_or (Map.get key self.hashes) (key_not_found key)

    unfoldable pub get_node : SectionsDag → PublicKey → Outcome m.Node
    unfolding get_hash
    get_node self key = do
      hash ← get_hash self key
      ok_or (m.node self.dag hash) (key_not_found key)

    unfoldable pub parent_node : SectionsDag → m.Hash → Option m.Node
    parent_node self hash = head? (m.children self.dag hash)

    unfoldable pub child_nodes : SectionsDag → m.Hash → List m.Node
    child_nodes self hash = m.parents self.dag hash

    unfoldable pub has_key : SectionsDag → PublicKey → Bool
    has_key self key = key =? self.genesis_key || Map.contains_key key self.hashes

    unfoldable pub keys : SectionsDag → List PublicKey
    keys self = self.genesis_key ∷ map key_of (m.all_nodes self.dag)

    unfoldable pub non_genesis_leaf_sections : SectionsDag → List SectionInfo
    non_genesis_leaf_sections self = map m.value (m.read self.dag)

    unfoldable pub leaf_keys : SectionsDag → List PublicKey
    unfolding non_genesis_leaf_sections
    leaf_keys self = elim (non_genesis_leaf_sections self) [
      | [] ↦ self.genesis_key ∷ []
      | info ∷ infos ↦ Sets.from_iter (map (λ i. SectionInfo.key i) (info ∷ infos))
    ]

    -- The key of the only leaf.
    unfoldable pub last_key : SectionsDag → Outcome PublicKey
    unfolding leaf_keys
    last_key self = elim (leaf_keys self) [
      | [] ↦ err multiple_branch_error
      | key ∷ [] ↦ ok key
      | key ∷ key' ∷ rest ↦ err multiple_branch_error
    ]

    unfoldable pub check_trust : SectionsDag → List PublicKey → Bool
    check_trust self trusted_keys = any (λ k. k =? self.genesis_key) trusted_keys

    -- A node on no other node was signed by the genesis key.
    abbrev pub parent_or_genesis : SectionsDag → Option m.Node → Option PublicKey
    parent_or_genesis self none = some self.genesis_key
    parent_or_genesis self (some node) = some (key_of node)

    unfoldable pub get_parent_key : SectionsDag → PublicKey → Outcome (Option PublicKey)
    unfolding get_hash
    get_parent_key self key =
        if key =? self.genesis_key
        then ok none
        else (do hash ← get_hash self key; ok (parent_or_genesis self (parent_node self hash)))

    unfoldable pub get_child_keys : SectionsDag → PublicKey → Outcome (List PublicKey)
    unfolding get_hash child_nodes
    get_child_keys self key =
        if key =? self.genesis_key
        then ok self.dag_root
        else (do hash ← get_hash self key; ok (map key_of (child_nodes self hash)))

    -- The end of `insert_trusted_key`: write the node, note its hash and apply it.
    unfoldable pub add_node : SectionsDag → PublicKey → Signature → List m.Hash → SectionsDag
    add_node self key signature parent =
        let child = m.write self.dag (record { key = key; sig = signature }) parent in
        record self {
          hashes = Map.insert key (m.hash child) self.hashes;
          dag = m.apply child self.dag;
        }

    -- An error comes before any change, so the new state is part of the result.
    unfoldable pub insert_trusted_key :
        SectionsDag → PublicKey → PublicKey → Signature → Outcome SectionsDag
    unfolding add_node
    insert_trusted_key self parent_key key signature =
        if parent_key =? self.genesis_key
        then ok
            (add_node (record self { dag_root = Sets.insert key self.dag_root }) key signature [])
        else (do
          hash ← ok_or (Map.get parent_key self.hashes) (key_not_found parent_key)
          ok (add_node self key signature (hash ∷ [])))

    unfoldable pub verify_and_insert :
        SectionsDag → PublicKey → PublicKey → Signature → Outcome SectionsDag
    unfolding verify_sig insert_trusted_key
    verify_and_insert self parent_key key signature =
        if not (verify_sig parent_key key signature)
        then err invalid_signature
        else insert_trusted_key self parent_key key signature

    unfoldable pub insert_node : SectionsDag → PublicKey → m.Node → Outcome SectionsDag
    unfolding verify_and_insert
    insert_node self parent_key node = verify_and_insert self parent_key (key_of node) (sig_of node)
