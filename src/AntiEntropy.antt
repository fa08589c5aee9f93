-- ===== src/AntiEntropy.antt =====
-- The anti-entropy of sn_node/src/node/messaging/anti_entropy.rs: which messages are answered with an
-- update of the sender's knowledge, and what such an update does to the node that gets it.
pub mod Accepted
pub mod Chain
pub mod Reply
pub mod Sync
use safe_network_archive.Dag.{SectionsDag, SectionInfo}
use safe_network_archive.Errors.{Error, Outcome}
use safe_network_archive.Extern.{
  BlsKeys, PublicKey, XorNames, XorName, Triggers, MerkleReg, Decisions,
}
use safe_network_archive.Knowledge.{
  NetworkKnowledge, prefix, section_key, closest_signed_sap_with_chain, section_chain,
  get_proof_chain_to_current_section, update_sap_knowledge_if_valid,
  update_section_member_knowledge,
}
use safe_network_archive.Prelude.{
  ℕ, Bool, true, false, not, ◌||◌, List, Option, none, some, Result, ok, err, ◌=?◌, Ord,
  if◌then◌else◌,
}
use safe_network_archive.Sap.{NodeState, SectionSigned, SignedSap, Bincode}
use safe_network_archive.Tree.{SectionTreeUpdate, sap_key}

module _ ⦃b : BlsKeys⦄ where
  instance abbrev key_order : Ord b.PublicKey
  key_order = b.key_ord

  -- The errors of the node that the functions below return.
  pub data NodeError : Type 0 where
    no_matching_section messaging : NodeError
    network_knowledge : Error → NodeError

  module _ ⦃m : MerkleReg SectionInfo⦄ ⦃x : XorNames⦄ ⦃t : Triggers⦄ ⦃d : Decisions NodeState⦄ where
    -- A bounced message is its bytes.
    pub data AntiEntropyKind : Type 0 where
      update : List d.Decision → AntiEntropyKind
      retry redirect : List ℕ → AntiEntropyKind

    -- What `check_for_entropy` reads of a message: its destination, and the bytes that `serialize`
    -- gives, `none` for its error.
    pub record WireMsg : Type 0 where
      pub dst_name : XorName
      pub dst_key : PublicKey
      pub serialized : Option (List ℕ)

    -- The proof chain from the key of the destination, or from the genesis key when there is none.
    unfoldable pub proof_chain_from : ℕ → NetworkKnowledge → Option PublicKey → Option SectionsDag
    proof_chain_from fuel self none = section_chain fuel self
    proof_chain_from fuel self (some key) =
        elim (get_proof_chain_to_current_section fuel self key) [
          | none ↦ none
          | some (err e) ↦ section_chain fuel self
          | some (ok proof_chain) ↦ some proof_chain
        ]

    unfoldable pub generate_ae_section_tree_update :
        ℕ → NetworkKnowledge → Option PublicKey → Option SectionTreeUpdate
    unfolding proof_chain_from
    generate_ae_section_tree_update fuel self dst_section_key =
        elim (proof_chain_from fuel self dst_section_key) [
          | none ↦ none
          | some proof_chain ↦
              some (record { signed_sap = self.signed_sap; proof_chain = proof_chain })
        ]

    abbrev pub Reply : Type 0
    Reply = Result NodeError (Option (SectionTreeUpdate × AntiEntropyKind))

    abbrev pub with_bounced : WireMsg → SectionTreeUpdate → (List ℕ → AntiEntropyKind) → Reply
    with_bounced wire_msg section_tree_update kind = elim wire_msg.serialized [
      | none ↦ err messaging
      | some bounced_msg ↦ ok (some (section_tree_update, kind bounced_msg))
    ]

    -- The outer option is the fuel's.
    unfoldable pub redirect_to_closest : ℕ → WireMsg → NetworkKnowledge → Option Reply
    redirect_to_closest fuel wire_msg self =
        elim (closest_signed_sap_with_chain fuel self wire_msg.dst_name) [
          | none ↦ none
          | some none ↦ some (err no_matching_section)
          | some (some (signed_sap, proof_chain)) ↦ some (
              with_bounced wire_msg (record { signed_sap = signed_sap; proof_chain = proof_chain })
                redirect)
        ]

    unfoldable pub retry_with_chain : ℕ → WireMsg → NetworkKnowledge → Option Reply
    unfolding generate_ae_section_tree_update
    retry_with_chain fuel wire_msg self =
        elim (generate_ae_section_tree_update fuel self (some wire_msg.dst_key)) [
          | none ↦ none
          | some section_tree_update ↦ some (with_bounced wire_msg section_tree_update retry)
        ]

    unfoldable pub check_for_entropy : ℕ → Bool → WireMsg → NetworkKnowledge → Option Reply
    unfolding redirect_to_closest retry_with_chain
    check_for_entropy fuel is_self_elder wire_msg self =
        if not (x.matches (prefix self) wire_msg.dst_name)
        then if not is_self_elder then some (ok none) else redirect_to_closest fuel wire_msg self
        else if wire_msg.dst_key =? section_key self
        then some (ok none)
        else retry_with_chain fuel wire_msg self

    -- The decisions of an update.
    abbrev pub decisions_of : AntiEntropyKind → Option (List d.Decision)
    decisions_of (update section_decisions) = some section_decisions
    decisions_of (retry bounced_msg) = none
    decisions_of (redirect bounced_msg) = none

    -- The members are updated when the section was, or is the node's already.
    unfoldable pub update_members_after :
        Option (List d.Decision) → Bool → NetworkKnowledge → Bool → NetworkKnowledge × (Bool × Bool)
    update_members_after section_decisions already_updated self updated_knowledge =
        if updated_knowledge || already_updated
        then (let (self', updated_members) =
              update_section_member_knowledge self section_decisions in
            (self', (updated_knowledge, updated_members)))
        else (self, (updated_knowledge, false))

    -- What `handle_anti_entropy_msg` does to the network knowledge, with whether the section and the
    -- members were updated.
    unfoldable pub handle_anti_entropy_msg :
        ⦃c : Bincode⦄
        → ℕ
        → NetworkKnowledge
        → XorName
        → SectionTreeUpdate
        → AntiEntropyKind
        → Option (NetworkKnowledge × Result NodeError (Bool × Bool))
    unfolding update_members_after
    handle_anti_entropy_msg fuel self our_name section_tree_update kind =
        let already_updated = section_key self =? sap_key section_tree_update.signed_sap in
        elim (update_sap_knowledge_if_valid fuel self section_tree_update our_name) [
          | none ↦ none
          | some (self', err e) ↦ some (self', err (network_knowledge e))
          | some (self', ok updated_knowledge) ↦
              let done =
                update_members_after (decisions_of kind) already_updated self' updated_knowledge in
              some (done.0, ok done.1)
        ]
