-- ===== src/AntiEntropy/Accepted.antt =====
-- What a tree that is behind does with the answer that its node gets.
use safe_network_archive.AntiEntropy.Chain.{dag_of, LeadsHere, leads_here}
use safe_network_archive.AntiEntropy.{
  WireMsg, retry, check_for_entropy, proof_chain_from, generate_ae_section_tree_update,
  retry_with_chain,
}
use safe_network_archive.Dag.{SectionsDag, SectionInfo, has_key, keys, check_trust}
use safe_network_archive.Dag.Chain.{IsGrown}
use safe_network_archive.Dag.Merge.{merge-done}
use safe_network_archive.Dag.Partial.{partial_dag-Ends, partial_dag-HasRoots}
use safe_network_archive.Dag.Roots.{HasRoots}
use safe_network_archive.Dag.Walk.{merge}
use safe_network_archive.Extern.{BlsKeys, PublicKey, XorNames, Triggers, MerkleReg, Decisions}
use safe_network_archive.Knowledge.{
  NetworkKnowledge, prefix, section_key, get_proof_chain_to_current_section,
}
use safe_network_archive.Prelude.{
  Ord, ℕ, ◌≡◌, sym, ap, subst, ◌∙◌, ◌⊎◌, inl, inr, Bool, true, false, In, List, [], ◌∷◌, none, some,
  ok, ◌=?◌, =?-refl, any, arith,
}
use safe_network_archive.Sap.{NodeState, SectionSigned, SignedSap, Bincode, self_verify}
use safe_network_archive.Tree.{
  SectionTree, SectionTreeUpdate, sap_key, get_signed, check_chain, check_sap, apply_update,
  merge_chain, insert, sap_prefix, update_the_section_tree,
}
use safe_network_archive.Tree.Insert.{has_extension, insert-get}
use safe_network_archive.Tree.Update.{entered}

module _ ⦃b : BlsKeys⦄ ⦃m : MerkleReg SectionInfo⦄ ⦃x : XorNames⦄ ⦃t : Triggers⦄
    ⦃d : Decisions NodeState⦄ where
  instance abbrev keys_order : Ord b.PublicKey
  keys_order = b.key_ord

  -- The section's authority is signed by its own key.
  abbrev pub IsSelfSigned : ⦃c : Bincode⦄ → NetworkKnowledge → Type 0
  IsSelfSigned self =
      (self_verify self.signed_sap ≡ true)
      × (SectionSigned.public_key self.signed_sap ≡ section_key self)

  -- A tree that is behind and can catch up: its DAG has the old key and does not have the new one; it
  -- knows no section whose prefix extends the new one's; and for that prefix it has the section with
  -- the old key, or no section, and then it trusts the old key.
  abbrev pub IsBehind : SectionTree → NetworkKnowledge → PublicKey → Type 0
  IsBehind tree self old_key =
      (has_key tree.sections_dag (section_key self) ≡ false)
      × (has_key tree.sections_dag old_key ≡ true)
      × (has_extension tree self.signed_sap ≡ false)
      × (((stale : SignedSap) × (get_signed tree (prefix self) ≡ some stale)
            × (sap_key stale ≡ old_key))
          ⊎ ((get_signed tree (prefix self) ≡ none) × In old_key (keys tree.sections_dag)))

  any-In : (k : PublicKey) (ks : List PublicKey) → In k ks → any (λ j. j =? k) ks ≡ true
  unfolding any
  any-In k [] i = absurd i
  any-In k (j ∷ ks) (inl e) = ground (arith, (b.key_ord.beq_iff j k).1 (sym e))
  any-In k (j ∷ ks) (inr i) = ground (arith, any-In k ks i)

  has_genesis : (dag : SectionsDag) (k : PublicKey) → k ≡ dag.genesis_key → has_key dag k ≡ true
  unfolding has_key
  has_genesis dag k e = ground (arith, (b.key_ord.beq_iff k dag.genesis_key).1 e)

  module _ ⦃c : Bincode⦄ (self : NetworkKnowledge) (tree : SectionTree) (old_key : PublicKey)
      (chain : SectionsDag) (leads : LeadsHere self old_key chain) where
    abbrev answer : SectionTreeUpdate
    answer = record { signed_sap = self.signed_sap; proof_chain = chain }

    chain_passes : IsBehind tree self old_key → check_chain tree answer ≡ ok tt
    unfolding check_chain check_trust
    chain_passes (_, _, _, inl (stale, e, k)) =
        let covered : has_key chain (sap_key stale) ≡ true =
          has_genesis chain (sap_key stale) (k ∙ sym leads.1) in
        rw (check_chain, e, covered)
    chain_passes (_, _, _, inr (e, i)) =
        let trusted : check_trust chain (keys tree.sections_dag) ≡ true =
          rw (check_trust, leads.1) (any-In old_key (keys tree.sections_dag) i) in
        rw (check_chain, e, trusted)

    sap_passes : IsSelfSigned self → check_sap answer ≡ ok tt
    unfolding check_sap
    sap_passes (v, k) =
        let same : (SectionSigned.public_key self.signed_sap =? section_key self) ≡ true =
          (b.key_ord.beq_iff (SectionSigned.public_key self.signed_sap) (section_key self)).1 k in
        rw (check_sap, v, same, leads.2, =?-refl (section_key self))

  -- What the tree is after it has caught up: it has the section, and all its keys and the chain's.
  abbrev pub HasCaughtUp : SectionTree → NetworkKnowledge → SectionTree → Type 0
  HasCaughtUp tree self tree' =
      (get_signed tree' (prefix self) ≡ some self.signed_sap)
      × (has_key tree'.sections_dag (section_key self) ≡ true)
      × ((k : PublicKey) → has_key tree.sections_dag k ≡ true → has_key tree'.sections_dag k ≡ true)

  -- An update that passes the checks, and whose chain is merged.
  update_runs :
      ⦃c : Bincode⦄ (fuel : ℕ) (tree : SectionTree) (update : SectionTreeUpdate) (dag : SectionsDag)
      → has_key tree.sections_dag (sap_key update.signed_sap) ≡ false
      → check_chain tree update ≡ ok tt
      → check_sap update ≡ ok tt
      → has_extension tree update.signed_sap ≡ false
      → merge fuel tree.sections_dag update.proof_chain ≡ some (dag, ok tt)
      → update_the_section_tree fuel tree update
        ≡ some (record (insert tree update.signed_sap).0 { sections_dag = dag }, ok true)
  unfolding update_the_section_tree apply_update merge_chain
  update_runs fuel tree update dag new chained signed free merged =
      let (inserted, kept, _) =
        insert-get tree update.signed_sap (sap_prefix update.signed_sap) free in
      let merged' = ap (λ z. merge fuel z update.proof_chain) kept ∙ merged in
      rw (new, chained, signed, inserted, merge_chain, merged')

  -- The answer is taken.
  catches_up :
      ⦃c : Bincode⦄ (self : NetworkKnowledge) (tree : SectionTree) (old_key : PublicKey)
      (chain : SectionsDag)
      → IsSelfSigned self
      → LeadsHere self old_key chain
      → HasRoots chain
      → has_key chain (section_key self) ≡ true
      → IsBehind tree self old_key
      → (peer_fuel : ℕ) × (tree' : SectionTree) × (update_the_section_tree peer_fuel tree
            (record { signed_sap = self.signed_sap; proof_chain = chain })
          ≡ some (tree', ok true))
        × HasCaughtUp tree self tree'
  unfolding get_signed
  catches_up self tree old_key chain signed leads roots has behind =
      let (new, old, free, _) = behind in
      let update : SectionTreeUpdate = record {
        signed_sap = self.signed_sap;
        proof_chain = chain;
      } in
      let known = subst (λ k. has_key tree.sections_dag k ≡ true) (sym leads.1) old in
      let (fuel, dag, merged, (kept, taken)) =
        merge-done chain leads.0 tree.sections_dag known roots in
      (
        fuel,
        record (insert tree self.signed_sap).0 { sections_dag = dag },
        update_runs fuel tree update dag new (chain_passes self tree old_key chain leads behind)
            (sap_passes self tree old_key chain leads signed) free merged,
        (entered tree update free, taken (section_key self) has, kept),
      )

  -- A node with a grown DAG and a self-signed section that gets a message for its section with an
  -- older key, from which its branch leads to its own key, answers with its section and the chain
  -- between the two. A tree that is behind takes this answer: in some number of rounds the update
  -- returns `Ok(true)`, and the tree then has the node's section under its prefix, the section's key
  -- in its DAG, and every key that was there.
  pub check_for_entropy-accepted :
      ⦃c : Bincode⦄ (fuel : ℕ) (is_self_elder : Bool) (wire_msg : WireMsg) (bytes : List ℕ)
      (self : NetworkKnowledge) (tree : SectionTree) (chain : SectionsDag)
      → IsGrown (dag_of self)
      → IsSelfSigned self
      → x.matches (prefix self) wire_msg.dst_name ≡ true
      → (wire_msg.dst_key =? section_key self) ≡ false
      → wire_msg.serialized ≡ some bytes
      → get_proof_chain_to_current_section fuel self wire_msg.dst_key ≡ some (ok chain)
      → IsBehind tree self wire_msg.dst_key
      → (check_for_entropy fuel is_self_elder wire_msg self
          ≡ some (
              ok
                (some (record { signed_sap = self.signed_sap; proof_chain = chain }, retry bytes))))
        × (peer_fuel : ℕ) × (tree' : SectionTree) × (update_the_section_tree peer_fuel tree
              (record { signed_sap = self.signed_sap; proof_chain = chain })
            ≡ some (tree', ok true))
        × HasCaughtUp tree self tree'
  unfolding check_for_entropy retry_with_chain generate_ae_section_tree_update proof_chain_from
      get_proof_chain_to_current_section
  check_for_entropy-accepted fuel is_self_elder wire_msg bytes self tree chain g signed ours older
        serialized found behind =
      let leads = leads_here fuel self wire_msg.dst_key chain g found in
      let (_, _, has, _) =
        partial_dag-Ends (dag_of self) fuel wire_msg.dst_key (section_key self) chain g found in
      let roots =
        partial_dag-HasRoots (dag_of self) fuel wire_msg.dst_key (section_key self) chain g found in
      let (peer_fuel, tree', updated, caught_up) =
        catches_up self tree wire_msg.dst_key chain signed leads roots has behind in
      (
        rw (
          check_for_entropy, ours, older, retry_with_chain, generate_ae_section_tree_update,
          proof_chain_from, get_proof_chain_to_current_section, found, serialized,
        ),
        peer_fuel,
        tree',
        updated,
        caught_up,
      )
