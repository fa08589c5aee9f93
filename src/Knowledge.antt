-- ===== src/Knowledge.antt =====
-- `NetworkKnowledge` of sn_interface/src/network_knowledge/mod.rs: what a node knows of the network,
-- with its own section's authority and members.
pub mod Members
pub mod Update
use safe_network_archive.Dag.{SectionsDag, SectionInfo, has_key, keys}
use safe_network_archive.Dag
use safe_network_archive.Dag.Walk.{partial_dag}
use safe_network_archive.Errors.{Error, Outcome, no_matching_section}
use safe_network_archive.Extern.{
  BlsKeys, PublicKey, XorNames, XorName, Prefix, Triggers, MerkleReg, Decisions,
}
use safe_network_archive.History
use safe_network_archive.History.{SectionMemberHistory, default_history, prune_members_archive}
use safe_network_archive.Prelude.Sets
use safe_network_archive.Prelude.{
  ℕ, Bool, true, false, not, List, [], ◌∷◌, ◌++◌, map, Option, none, some, ok, err, ◌>>=◌, ◌=?◌,
  Ord, any, length, select, if◌then◌else◌,
}
use safe_network_archive.Sap.{
  NodeId, node_id_ord, NodeState, node_state_ord, node_name, SectionAuthorityProvider, SignedSap,
  Bincode, contains_elder,
}
use safe_network_archive.Tree.{
  SectionTree, SectionTreeUpdate, get_signed, sap_prefix, sap_key, closest, get_signed_by_name,
  get_signed_by_prefix, update_the_section_tree,
}

module _ ⦃b : BlsKeys⦄ ⦃m : MerkleReg SectionInfo⦄ ⦃x : XorNames⦄ ⦃t : Triggers⦄
    ⦃d : Decisions NodeState⦄ where
  instance abbrev name_order : Ord x.XorName
  name_order = x.name_ord

  pub record NetworkKnowledge : Type 0 where
    pub signed_sap : SignedSap
    pub section_members : SectionMemberHistory
    pub section_tree : SectionTree

  abbrev pub sap_members : SignedSap → List NodeState
  sap_members signed = Sets.from_iter (SectionAuthorityProvider.members signed.value)

  unfoldable pub new : Prefix → SectionTree → Outcome NetworkKnowledge
  new prefix section_tree = elim (get_signed section_tree prefix) [
    | none ↦ err no_matching_section
    | some signed_sap ↦ ok (record {
      signed_sap = signed_sap;
      section_members = History.reset_initial_members default_history (sap_members signed_sap);
      section_tree = section_tree;
    })
  ]

  unfoldable pub reset_initial_members : NetworkKnowledge → List NodeState → NetworkKnowledge
  reset_initial_members self new_initial_members = record self {
    section_members = History.reset_initial_members self.section_members new_initial_members;
  }

  unfoldable pub switch_section : NetworkKnowledge → SignedSap → Outcome NetworkKnowledge
  unfolding reset_initial_members
  switch_section self dst_sap = elim (get_signed self.section_tree (sap_prefix dst_sap)) [
    | none ↦ err no_matching_section
    | some known ↦
        ok (record (reset_initial_members self (sap_members dst_sap)) { signed_sap = dst_sap })
  ]

  abbrev pub genesis_key : NetworkKnowledge → PublicKey
  genesis_key self = SectionsDag.genesis_key (SectionTree.sections_dag self.section_tree)

  abbrev pub prefix : NetworkKnowledge → Prefix
  prefix self = sap_prefix self.signed_sap

  abbrev pub section_key : NetworkKnowledge → PublicKey
  section_key self = sap_key self.signed_sap

  abbrev pub prefixes : NetworkKnowledge → List Prefix
  prefixes self = map (λ e. e.0) (SectionTree.sections self.section_tree)

  -- The end of an update of our own section: the members are reset and retained first, and stay so
  -- when an error comes after it.
  unfoldable pub prune_and_switch :
      ⦃c : Bincode⦄ → ℕ → NetworkKnowledge → SignedSap → Option (NetworkKnowledge × Outcome Bool)
  prune_and_switch fuel self signed_sap =
      elim (partial_dag fuel (SectionTree.sections_dag self.section_tree) (genesis_key self)
        (sap_key signed_sap)) [
          | none ↦ none
          | some (err e) ↦ some (self, err e)
          | some (ok proof_chain) ↦
              elim (prune_members_archive fuel self.section_members proof_chain
                (sap_key signed_sap)) [
                  | none ↦ none
                  | some (err e) ↦ some (self, err e)
                  | some (ok pruned) ↦
                      some
                        (record self { signed_sap = signed_sap; section_members = pruned }, ok true)
                ]
        ]

  unfoldable pub switch_own_section :
      ⦃c : Bincode⦄ → ℕ → NetworkKnowledge → SignedSap → Option (NetworkKnowledge × Outcome Bool)
  unfolding prune_and_switch reset_initial_members
  switch_own_section fuel self signed_sap =
      let reset = reset_initial_members self (sap_members signed_sap) in
      prune_and_switch fuel
        (record reset {
          section_members = History.retain reset.section_members (sap_prefix signed_sap);
        })
        signed_sap

  -- The branches of an update on what the section tree says of it.
  unfoldable pub adopt_update :
      ⦃c : Bincode⦄
      → ℕ
      → NetworkKnowledge
      → SignedSap
      → XorName
      → SectionTree × Outcome Bool
      → Option (NetworkKnowledge × Outcome Bool)
  unfolding switch_own_section
  adopt_update fuel self signed_sap our_name (tree, err e) =
      some (record self { section_tree = tree }, err e)
  adopt_update fuel self signed_sap our_name (tree, ok false) =
      some (record self { section_tree = tree }, ok false)
  adopt_update fuel self signed_sap our_name (tree, ok true) =
      if x.matches (sap_prefix signed_sap) our_name
      then switch_own_section fuel (record self { section_tree = tree }) signed_sap
      else some (record self { section_tree = tree }, ok true)

  unfoldable pub update_sap_knowledge_if_valid :
      ⦃c : Bincode⦄
      → ℕ
      → NetworkKnowledge
      → SectionTreeUpdate
      → XorName
      → Option (NetworkKnowledge × Outcome Bool)
  unfolding adopt_update
  update_sap_knowledge_if_valid fuel self section_tree_update our_name =
      elim (update_the_section_tree fuel self.section_tree section_tree_update) [
        | none ↦ none
        | some outcome ↦ adopt_update fuel self section_tree_update.signed_sap our_name outcome
      ]

  unfoldable pub update_members : NetworkKnowledge → List d.Decision → NetworkKnowledge × Bool
  update_members self peers =
      let (section_members, updated) =
        History.update_peers self.section_members (section_key self) peers in
      (record self { section_members = section_members }, updated)

  unfoldable pub update_section_member_knowledge :
      NetworkKnowledge → Option (List d.Decision) → NetworkKnowledge × Bool
  unfolding update_members
  update_section_member_knowledge self none = (self, false)
  update_section_member_knowledge self (some members) = update_members self members

  unfoldable pub try_update_member :
      NetworkKnowledge → d.Decision → Outcome (NetworkKnowledge × Bool)
  try_update_member self decision =
      History.update self.section_members (section_key self) decision >>= λ updated.
      ok (record self { section_members = updated.0 }, updated.1)

  abbrev pub section_auth : NetworkKnowledge → SectionAuthorityProvider
  section_auth self = self.signed_sap.value

  abbrev pub section_decisions : NetworkKnowledge → List d.Decision
  section_decisions self = History.section_decisions self.section_members

  unfoldable pub section_auth_by_name :
      NetworkKnowledge → XorName → Outcome SectionAuthorityProvider
  section_auth_by_name self name = get_signed_by_name self.section_tree name >>= λ sap. ok sap.value

  unfoldable pub section_auth_by_prefix :
      NetworkKnowledge → Prefix → Outcome SectionAuthorityProvider
  section_auth_by_prefix self prefix =
      get_signed_by_prefix self.section_tree prefix >>= λ sap. ok sap.value

  -- The fallback is computed first: without our own section there is no answer.
  unfoldable pub closest_signed_sap : NetworkKnowledge → XorName → Option SignedSap
  closest_signed_sap self name = elim (get_signed self.section_tree (prefix self)) [
    | none ↦ none
    | some own ↦ elim (closest self.section_tree name (some (prefix self))) [
      | none ↦ some own
      | some sap ↦ some sap
    ]
  ]

  -- The outer option is the fuel's.
  unfoldable pub closest_signed_sap_with_chain :
      ℕ → NetworkKnowledge → XorName → Option (Option (SignedSap × SectionsDag))
  unfolding closest_signed_sap
  closest_signed_sap_with_chain fuel self name = elim (closest_signed_sap self name) [
    | none ↦ some none
    | some sap ↦
        elim (partial_dag fuel (SectionTree.sections_dag self.section_tree) (genesis_key self)
          (sap_key sap)) [
            | none ↦ none
            | some (err e) ↦ some none
            | some (ok section_chain) ↦ some (some (sap, section_chain))
          ]
  ]

  unfoldable pub get_proof_chain_to_current_section :
      ℕ → NetworkKnowledge → PublicKey → Option (Outcome SectionsDag)
  get_proof_chain_to_current_section fuel self from_key =
      partial_dag fuel (SectionTree.sections_dag self.section_tree) from_key (section_key self)

  unfoldable pub section_chain : ℕ → NetworkKnowledge → Option SectionsDag
  unfolding get_proof_chain_to_current_section
  section_chain fuel self = elim (get_proof_chain_to_current_section fuel self (genesis_key self)) [
    | none ↦ none
    | some (err e) ↦ some (Dag.new (genesis_key self))
    | some (ok chain) ↦ some chain
  ]

  unfoldable pub section_chain_len : ℕ → NetworkKnowledge → Option ℕ
  unfolding section_chain
  section_chain_len fuel self = elim (section_chain fuel self) [
    | none ↦ none
    | some chain ↦ some (length (keys chain))
  ]

  unfoldable pub has_chain_key : ℕ → NetworkKnowledge → PublicKey → Option Bool
  unfolding section_chain
  has_chain_key fuel self key = elim (section_chain fuel self) [
    | none ↦ none
    | some chain ↦ some (has_key chain key)
  ]

  unfoldable pub verify_section_key_is_known : NetworkKnowledge → PublicKey → Bool
  verify_section_key_is_known self key = has_key (SectionTree.sections_dag self.section_tree) key

  abbrev pub elders : NetworkKnowledge → List NodeId
  elders self = SectionAuthorityProvider.elders (section_auth self)

  unfoldable pub is_elder : NetworkKnowledge → XorName → Bool
  is_elder self name = contains_elder (section_auth self) name

  unfoldable pub live_adults : NetworkKnowledge → List NodeState → List NodeId → List NodeId
  unfolding is_elder
  live_adults self [] found = found
  live_adults self (node_state ∷ rest) found = live_adults self rest (
      if not (is_elder self (node_name node_state))
      then Sets.insert node_state.node_id found
      else found)

  unfoldable pub adults : NetworkKnowledge → List NodeId
  unfolding live_adults
  adults self = live_adults self (History.members self.section_members) []

  unfoldable pub members : NetworkKnowledge → List NodeId
  unfolding adults
  members self = Sets.from_iter (elders self ++ adults self)

  unfoldable pub is_adult : NetworkKnowledge → XorName → Bool
  unfolding adults
  is_adult self name = any (λ a. NodeId.name a =? name) (adults self)

  -- `Dst`: the name with the key of its section.
  unfoldable pub generate_dst : NetworkKnowledge → XorName → Outcome (XorName × PublicKey)
  unfolding section_auth_by_name
  generate_dst self recipient =
      section_auth_by_name self recipient >>= λ sap. ok (recipient, b.public_key sap.public_key_set)

  abbrev pub section_members : NetworkKnowledge → List NodeState
  section_members self = History.members self.section_members

  abbrev pub members_at_gen : NetworkKnowledge → ℕ → History.Members
  members_at_gen self gen = History.members_at_gen self.section_members gen

  abbrev pub archived_members : NetworkKnowledge → List NodeState
  archived_members self = History.archived_members self.section_members

  abbrev pub get_section_member : NetworkKnowledge → XorName → Option NodeState
  get_section_member self name = History.get self.section_members name

  abbrev pub is_section_member : NetworkKnowledge → XorName → Bool
  is_section_member self name = History.is_member self.section_members name
