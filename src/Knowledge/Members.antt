-- ===== src/Knowledge/Members.antt =====
-- Who is an elder, an adult or a member in the network knowledge.
use safe_network_archive.Dag.{SectionInfo}
use safe_network_archive.Extern.{BlsKeys, XorNames, XorName, Triggers, MerkleReg, Decisions}
use safe_network_archive.History
use safe_network_archive.Knowledge.{
  NetworkKnowledge, elders, is_elder, live_adults, adults, is_adult, members, is_section_member,
}
use safe_network_archive.Prelude.Sets
use safe_network_archive.Prelude.{
  Ord, ◌≡◌, sym, ap, ◌∙◌, Bool, true, not, ◌&&◌, ◌||◌, List, [], ◌∷◌, ◌++◌, ◌=?◌, any, any-append,
  is_some-find, arith, eq_of_=?,
}
use safe_network_archive.Sap.{NodeId, node_id_ord, NodeState, node_name, contains_elder}

module _ ⦃b : BlsKeys⦄ ⦃m : MerkleReg SectionInfo⦄ ⦃x : XorNames⦄ ⦃t : Triggers⦄
    ⦃d : Decisions NodeState⦄ where
  instance abbrev name_order : Ord x.XorName
  name_order = x.name_ord

  abbrev pub has_name : XorName → List NodeId → Bool
  has_name n nodes = any (λ node. NodeId.name node =? n) nodes

  same_elder :
      (self : NetworkKnowledge) (n : XorName) (s : NodeState)
      → (node_name s =? n) ≡ true
      → is_elder self (node_name s) ≡ is_elder self n
  same_elder self n s e = ap (is_elder self) (eq_of_=? (node_name s) n e)

  has_name-live_adults :
      (self : NetworkKnowledge) (n : XorName) (states : List NodeState) (found : List NodeId)
      → has_name n (live_adults self states found)
        ≡ (has_name n found || any (λ s. node_name s =? n) states && not (is_elder self n))
  unfolding live_adults any
  has_name-live_adults self n [] found = ground arith
  has_name-live_adults self n (s ∷ states) found = ground (
    arith,
    same_elder self n s,
    Sets.any-insert (λ node. NodeId.name node =? n) s.node_id found,
    has_name-live_adults self n states found,
    has_name-live_adults self n states (Sets.insert s.node_id found),
  )

  -- A node is an adult exactly when it is a member of the section and no elder.
  pub is_adult_lem :
      (self : NetworkKnowledge) (n : XorName)
      → is_adult self n ≡ (is_section_member self n && not (is_elder self n))
  unfolding is_adult adults History.is_member History.get any
  is_adult_lem self n =
      let states = History.members self.section_members in
      has_name-live_adults self n states []
      ∙ ap (λ held. held && not (is_elder self n))
          (sym (is_some-find (λ s. node_name s =? n) states))

  -- The members are the elders with the members of the section.
  pub has_name-members :
      (self : NetworkKnowledge) (n : XorName)
      → has_name n (members self) ≡ (is_elder self n || is_section_member self n)
  unfolding members is_elder contains_elder is_adult
  has_name-members self n =
      Sets.any-from_iter (λ node. NodeId.name node =? n) (elders self ++ adults self)
      ∙ any-append (λ node. NodeId.name node =? n) (elders self) (adults self)
      ∙ ground (arith, is_adult_lem self n)
