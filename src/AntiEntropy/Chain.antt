-- ===== src/AntiEntropy/Chain.antt =====
-- The proof chains that a node sends lead to its own section key.
use safe_network_archive.AntiEntropy.{proof_chain_from}
use safe_network_archive.Dag.{SectionsDag, SectionInfo, has_key, last_key}
use safe_network_archive.Dag.Chain.{IsGrown}
use safe_network_archive.Dag.Partial.{partial_dag-Ends, partial_dag-total}
use safe_network_archive.Dag.Walk.{partial_dag}
use safe_network_archive.Extern.{BlsKeys, PublicKey, XorNames, Triggers, MerkleReg, Decisions}
use safe_network_archive.Knowledge.{
  NetworkKnowledge, section_key, genesis_key, section_chain, get_proof_chain_to_current_section,
}
use safe_network_archive.Prelude.{Ord, ℕ, ◌<◌, ◌≡◌, ◌⊎◌, inl, inr, true, some, ok, =?-refl, length}
use safe_network_archive.Sap.{NodeState}
use safe_network_archive.Tree.{SectionTree}

module _ ⦃b : BlsKeys⦄ ⦃m : MerkleReg SectionInfo⦄ ⦃x : XorNames⦄ ⦃t : Triggers⦄
    ⦃d : Decisions NodeState⦄ where
  instance abbrev keys_order : Ord b.PublicKey
  keys_order = b.key_ord

  abbrev pub dag_of : NetworkKnowledge → SectionsDag
  dag_of self = SectionTree.sections_dag self.section_tree

  -- What holds of a node whose DAG grew and has its section's key, with enough fuel for its walks.
  abbrev pub Knows : ℕ → NetworkKnowledge → Type 0
  Knows fuel self =
      IsGrown (dag_of self)
      × (has_key (dag_of self) (section_key self) ≡ true)
      × (length (SectionsDag.hashes (dag_of self)) < fuel)

  -- A chain that grew from the key and ends at the node's section key.
  abbrev pub LeadsHere : NetworkKnowledge → PublicKey → SectionsDag → Type 0
  LeadsHere self from chain =
      IsGrown chain × (chain.genesis_key ≡ from) × (last_key chain ≡ ok (section_key self))

  pub leads_here :
      (fuel : ℕ) (self : NetworkKnowledge) (from : PublicKey) (chain : SectionsDag)
      → IsGrown (dag_of self)
      → partial_dag fuel (dag_of self) from (section_key self) ≡ some (ok chain)
      → LeadsHere self from chain
  leads_here fuel self from chain g e =
      let (grown, start, _, end) =
        partial_dag-Ends (dag_of self) fuel from (section_key self) chain g e in
      (grown, start, end)

  -- In a grown DAG that has the node's section key, with one round more than the DAG has keys,
  -- `section_chain` is a grown DAG from the genesis key that ends at that key: its fallback is never
  -- taken.
  pub section_chain-LeadsHere :
      (fuel : ℕ) (self : NetworkKnowledge)
      → Knows fuel self
      → (chain : SectionsDag) × (section_chain fuel self ≡ some chain)
        × LeadsHere self (genesis_key self) chain
  unfolding section_chain get_proof_chain_to_current_section
  section_chain-LeadsHere fuel self (g, has, enough) =
      let genesis = genesis_key self in
      elim (partial_dag-total (dag_of self) fuel genesis (section_key self) g has enough) [
        | inl (chain, e) ↦ (
          chain,
          rw (section_chain, get_proof_chain_to_current_section, e),
          leads_here fuel self genesis chain g e,
        )
        | inr (w, _) ↦ absurd (cc (w, =?-refl genesis))
      ]

  -- The chain of an answer starts at the sender's key, or at the genesis key if the sender's is not
  -- on the node's branch.
  pub proof_chain_from-LeadsHere :
      (fuel : ℕ) (self : NetworkKnowledge) (key : PublicKey)
      → Knows fuel self
      → (chain : SectionsDag) × (proof_chain_from fuel self (some key) ≡ some chain)
        × (LeadsHere self key chain ⊎ LeadsHere self (genesis_key self) chain)
  unfolding proof_chain_from get_proof_chain_to_current_section
  proof_chain_from-LeadsHere fuel self key k =
      let (g, has, enough) = k in
      elim (partial_dag-total (dag_of self) fuel key (section_key self) g has enough) [
        | inl (chain, e) ↦ (
          chain,
          rw (proof_chain_from, get_proof_chain_to_current_section, e),
          inl (leads_here fuel self key chain g e),
        )
        | inr (_, failed) ↦
            let (chain, e, leads) = section_chain-LeadsHere fuel self k in
            (chain, rw (proof_chain_from, get_proof_chain_to_current_section, failed) e, inr leads)
      ]
