-- ===== src/AntiEntropy/Sync.antt =====
-- An anti-entropy update brings the members of a node up to date.
use safe_network_archive.AntiEntropy.{update, handle_anti_entropy_msg, update_members_after}
use safe_network_archive.Dag.{SectionInfo, has_key}
use safe_network_archive.Extern.{BlsKeys, XorNames, XorName, Triggers, MerkleReg, Decisions}
use safe_network_archive.History
use safe_network_archive.History.{SectionMemberHistory}
use safe_network_archive.History.Sync.{IsNumbered, NoneRejoins, update_peers-catches_up}
use safe_network_archive.Knowledge.{
  NetworkKnowledge, section_key, update_sap_knowledge_if_valid, adopt_update,
  update_section_member_knowledge, update_members,
}
use safe_network_archive.Prelude.{Ord, ℕ, ◌≡◌, Bool, true, false, List, ◌++◌, some, ok, ◌=?◌}
use safe_network_archive.Sap.{NodeState, Bincode}
use safe_network_archive.Tree.{SectionTree, SectionTreeUpdate, sap_key, update_the_section_tree}

module _ ⦃b : BlsKeys⦄ ⦃m : MerkleReg SectionInfo⦄ ⦃x : XorNames⦄ ⦃t : Triggers⦄
    ⦃d : Decisions NodeState⦄ ⦃c : Bincode⦄ where
  instance abbrev keys_order : Ord b.PublicKey
  keys_order = b.key_ord

  decisions_of_members : NetworkKnowledge → List d.Decision
  decisions_of_members self = SectionMemberHistory.decisions self.section_members

  -- An update of the section that the node has already leaves the section as it is.
  known_section :
      (fuel : ℕ) (self : NetworkKnowledge) (our_name : XorName) (sent : SectionTreeUpdate)
      → has_key (SectionTree.sections_dag self.section_tree) (sap_key sent.signed_sap) ≡ true
      → update_sap_knowledge_if_valid fuel self sent our_name ≡ some (self, ok false)
  unfolding update_sap_knowledge_if_valid update_the_section_tree adopt_update
  known_section fuel self our_name sent e =
      rw (update_sap_knowledge_if_valid, update_the_section_tree, e)

  -- A node that has the section of an update already, and whose decisions are the first of those sent,
  -- has all of them after `handle_anti_entropy_msg`, if those are numbered from one, valid for the
  -- section key, and the later ones let no initial member join once more.
  pub handle_anti_entropy_msg-catches_up :
      (fuel : ℕ) (self : NetworkKnowledge) (our_name : XorName) (sent : SectionTreeUpdate)
      (next : List d.Decision)
      → has_key (SectionTree.sections_dag self.section_tree) (section_key self) ≡ true
      → section_key self ≡ sap_key sent.signed_sap
      → IsNumbered
          (section_key self)
          0
          (SectionMemberHistory.decisions self.section_members ++ next)
      → NoneRejoins self.section_members next
      → (self' : NetworkKnowledge) × (updated : Bool) × (handle_anti_entropy_msg fuel self our_name
            sent
            (update (SectionMemberHistory.decisions self.section_members ++ next))
          ≡ some (self', ok (false, updated)))
        × (SectionMemberHistory.decisions self'.section_members
            ≡ SectionMemberHistory.decisions self.section_members ++ next)
  unfolding handle_anti_entropy_msg update_members_after update_section_member_knowledge
      update_members
  handle_anti_entropy_msg-catches_up fuel self our_name sent next has same numbered rejoins =
      let held = self.section_members in
      let all = SectionMemberHistory.decisions held ++ next in
      let after = History.update_peers held (section_key self) all in
      let known = known_section fuel self our_name sent (rw (← same) has) in
      let own : (section_key self =? sap_key sent.signed_sap) ≡ true =
        (b.key_ord.beq_iff (section_key self) (sap_key sent.signed_sap)).1 same in
      (
        record self { section_members = after.0 },
        after.1,
        rw (handle_anti_entropy_msg, known, own),
        update_peers-catches_up held (section_key self) next numbered rejoins,
      )
