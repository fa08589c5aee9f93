-- ===== src/AntiEntropy/Reply.antt =====
-- Which messages are answered.
use safe_network_archive.AntiEntropy.{
  WireMsg, AntiEntropyKind, retry, redirect, check_for_entropy, generate_ae_section_tree_update,
  with_bounced, retry_with_chain, redirect_to_closest,
}
use safe_network_archive.Dag.{SectionsDag, SectionInfo}
use safe_network_archive.Extern.{BlsKeys, XorNames, Triggers, MerkleReg, Decisions}
use safe_network_archive.Knowledge.{
  NetworkKnowledge, prefix, section_key, closest_signed_sap_with_chain,
}
use safe_network_archive.Prelude.{
  Ord, ℕ, ◌≡◌, ◌↔◌, refl, ◌⊎◌, inl, inr, Bool, true, false, ◌≢◌, List, Option, none, some, ok,
  arith, Option-cases,
}
use safe_network_archive.Sap.{NodeState, SignedSap}
use safe_network_archive.Tree.{SectionTreeUpdate}

module _ ⦃b : BlsKeys⦄ ⦃m : MerkleReg SectionInfo⦄ ⦃x : XorNames⦄ ⦃t : Triggers⦄
    ⦃d : Decisions NodeState⦄ where
  instance abbrev keys_order : Ord b.PublicKey
  keys_order = b.key_ord

  with_bounced-some :
      (wire_msg : WireMsg) (section_tree_update : SectionTreeUpdate)
      (kind : List ℕ → AntiEntropyKind)
      → with_bounced wire_msg section_tree_update kind ≢ ok none
  with_bounced-some wire_msg section_tree_update kind h = elim (Option-cases wire_msg.serialized) [
    | inl e ↦ cc (rw e at h)
    | inr (bytes, e) ↦ cc (rw e at h)
  ]

  redirect-some :
      (fuel : ℕ) (wire_msg : WireMsg) (self : NetworkKnowledge)
      → redirect_to_closest fuel wire_msg self ≢ some (ok none)
  unfolding redirect_to_closest
  redirect-some fuel wire_msg self h =
      of_closest (closest_signed_sap_with_chain fuel self wire_msg.dst_name) refl
    where
      of_closest :
          (o : Option (Option (SignedSap × SectionsDag)))
          → closest_signed_sap_with_chain fuel self wire_msg.dst_name ≡ o
          → ⊥
      of_closest none e = cc (rw (redirect_to_closest, e) at h)
      of_closest (some none) e = cc (rw (redirect_to_closest, e) at h)
      of_closest (some (some (sap, chain))) e =
          with_bounced-some wire_msg (record { signed_sap = sap; proof_chain = chain }) redirect
            (cc (rw (redirect_to_closest, e) at h))

  retry-some :
      (fuel : ℕ) (wire_msg : WireMsg) (self : NetworkKnowledge)
      → retry_with_chain fuel wire_msg self ≢ some (ok none)
  unfolding retry_with_chain
  retry-some fuel wire_msg self h =
      elim (Option-cases (generate_ae_section_tree_update fuel self (some wire_msg.dst_key))) [
        | inl e ↦ cc (rw (retry_with_chain, e) at h)
        | inr (update, e) ↦
            with_bounced-some wire_msg update retry (cc (rw (retry_with_chain, e) at h))
      ]

  -- A message is left without an answer exactly when it is for the node's section and names its
  -- current key, or is for another section and the node is no elder.
  pub check_for_entropy-none_iff :
      (fuel : ℕ) (is_self_elder : Bool) (wire_msg : WireMsg) (self : NetworkKnowledge)
      → (check_for_entropy fuel is_self_elder wire_msg self ≡ some (ok none)) ↔ (
          ((x.matches (prefix self) wire_msg.dst_name ≡ true)
            × (wire_msg.dst_key ≡ section_key self))
          ⊎ ((x.matches (prefix self) wire_msg.dst_name ≡ false) × (is_self_elder ≡ false)))
  unfolding check_for_entropy
  check_for_entropy-none_iff fuel is_self_elder wire_msg self = (
    λ h. ground (
      arith,
      b.key_ord.beq_iff wire_msg.dst_key (section_key self),
      redirect-some fuel wire_msg self,
      retry-some fuel wire_msg self,
    ),
    λ h. ground (arith, b.key_ord.beq_iff wire_msg.dst_key (section_key self)),
  )
