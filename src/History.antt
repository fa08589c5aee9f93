-- ===== src/History.antt =====
-- `SectionMemberHistory` of sn_interface/src/network_knowledge/section_member_history.rs: the members
-- of a section by the decisions since its last authority, and the archive of those that left.
pub mod Members
pub mod Replay
pub mod Sync
use mathlib.Core.List.{foldl}
use safe_network_archive.Dag.{SectionsDag, SectionInfo}
use safe_network_archive.Dag.Walk.{get_ancestors}
use safe_network_archive.Errors.{Outcome, consensus, ae_outdated}
use safe_network_archive.Extern.{
  BlsKeys, PublicKey, Signature, XorNames, XorName, Prefix, Triggers, MerkleReg, Decisions,
}
use safe_network_archive.Prelude.Map
use safe_network_archive.Prelude.Sets
use safe_network_archive.Prelude.{
  ℕ, ◌+◌, ◌-◌, Bool, true, false, not, ◌&&◌, ◌||◌, List, [], ◌∷◌, ◌++◌, map, Option, none, some, ok,
  err, ◌==◌, ltb, leb, any, find, select, take, is_some, length, if◌then◌else◌, ◌=?◌, Ord,
}
use safe_network_archive.Sap.{NodeState, node_state_ord, node_name, is_joined, Bincode}

abbrev pub elder_churn_events_to_prune_archive : ℕ
elder_churn_events_to_prune_archive = 5

module _ ⦃b : BlsKeys⦄ ⦃x : XorNames⦄ ⦃t : Triggers⦄ ⦃d : Decisions NodeState⦄ where
  instance abbrev name_order : Ord x.XorName
  name_order = x.name_ord

  pub record SectionMemberHistory : Type 0 where
    pub initial_members : List NodeState
    pub decisions : List d.Decision
    pub archive : List (XorName × d.Decision)

  abbrev pub default_history : SectionMemberHistory
  default_history = record { initial_members = []; decisions = []; archive = [] }

  unfoldable pub reset_initial_members :
      SectionMemberHistory → List NodeState → SectionMemberHistory
  reset_initial_members self new_initial_members = record self {
    initial_members = new_initial_members;
    decisions = [];
  }

  abbrev pub Members : Type 0
  Members = List (XorName × NodeState)

  -- The states that a decision proposes, in the order of the map.
  abbrev pub proposed : d.Decision → List NodeState
  proposed decision = map (λ p. p.0) (d.proposals decision)

  -- One step of the replay, its loop over a decision, and the loop over the decisions.
  unfoldable pub apply_state : Members → NodeState → Members
  apply_state members node_state =
      if is_joined node_state
      then Map.insert (node_name node_state) node_state members
      else Map.remove (node_name node_state) members

  unfoldable pub apply_states : Members → List NodeState → Members
  apply_states members [] = members
  apply_states members (node_state ∷ rest) = apply_states (apply_state members node_state) rest

  unfoldable pub apply_decisions : Members → List d.Decision → Members
  apply_decisions members [] = members
  apply_decisions members (decision ∷ rest) =
      apply_decisions (apply_states members (proposed decision)) rest

  abbrev pub joined_only : List NodeState → List NodeState
  joined_only states = select (λ n. is_joined n) states

  -- `BTreeMap::from_iter`: a later state of a name replaces an earlier one.
  unfoldable pub collect_members : Members → List NodeState → Members
  collect_members members [] = members
  collect_members members (n ∷ rest) = collect_members (Map.insert (node_name n) n members) rest

  unfoldable pub members_at_gen : SectionMemberHistory → ℕ → Members
  members_at_gen self gen =
      if ltb (length self.decisions) gen
      then []
      else (let members = collect_members [] (joined_only self.initial_members) in
          if gen == 0 then members else apply_decisions members (take gen self.decisions))

  unfoldable pub members : SectionMemberHistory → List NodeState
  members self = Sets.from_iter (map (λ e. e.1) (members_at_gen self (length self.decisions)))

  abbrev pub section_decisions : SectionMemberHistory → List d.Decision
  section_decisions self = self.decisions

  unfoldable pub archived_states : List (XorName × d.Decision) → List NodeState → List NodeState
  archived_states [] states = states
  archived_states ((name, decision) ∷ rest) states =
      archived_states rest (elim (find (λ state. node_name state =? name) (proposed decision)) [
        | none ↦ states
        | some state ↦ Sets.insert state states
      ])

  unfoldable pub archived_members : SectionMemberHistory → List NodeState
  unfolding archived_states
  archived_members self = archived_states self.archive []

  unfoldable pub get : SectionMemberHistory → XorName → Option NodeState
  get self name = find (λ node_state. node_name node_state =? name) (members self)

  unfoldable pub is_member : SectionMemberHistory → XorName → Bool
  unfolding get
  is_member self name = is_some (get self name)

  -- A decision that lets an initial member join once more.
  unfoldable pub rejoins_initial : SectionMemberHistory → d.Decision → Bool
  rejoins_initial self decision =
      any (λ n. is_joined n && Sets.contains n self.initial_members) (proposed decision)

  unfoldable pub archive_departed :
      List (XorName × d.Decision) → d.Decision → List NodeState → List (XorName × d.Decision)
  archive_departed archive decision [] = archive
  archive_departed archive decision (n ∷ rest) =
      archive_departed (if is_joined n then archive else Map.insert (node_name n) decision archive)
        decision rest

  -- The error comes before any change.
  unfoldable pub update :
      SectionMemberHistory → PublicKey → d.Decision → Outcome (SectionMemberHistory × Bool)
  update self section_key new_decision =
      let incoming_generation = d.generation new_decision in
      if rejoins_initial self new_decision
      then ok (self, false)
      else if incoming_generation == length self.decisions + 1
      then (if not (d.validate section_key new_decision)
          then err consensus
          else ok (
            record self {
              decisions = self.decisions ++ new_decision ∷ [];
              archive = archive_departed self.archive new_decision (proposed new_decision);
            },
            true,
          ))
      else if leb incoming_generation (length self.decisions)
      then ok (self, false)
      else err ae_outdated

  -- What one decision of a list changes; an error is only logged.
  unfoldable pub update_peer :
      SectionMemberHistory → PublicKey → d.Decision → SectionMemberHistory × Bool
  update_peer self section_key peer = elim (update self section_key peer) [
    | ok (self', updated) ↦ (self', updated)
    | err e ↦ (self, false)
  ]

  unfoldable pub update_peers :
      SectionMemberHistory → PublicKey → List d.Decision → SectionMemberHistory × Bool
  unfolding update_peer
  update_peers self section_key [] = (self, false)
  update_peers self section_key (peer ∷ peers) =
      let first = update_peer self section_key peer in
      let rest = update_peers first.0 section_key peers in (rest.0, first.1 || rest.1)

  unfoldable pub retain : SectionMemberHistory → Prefix → SectionMemberHistory
  retain self prefix = record self { archive = select (λ e. x.matches prefix e.0) self.archive }

  -- One of the keys signed one of the proposals.
  unfoldable pub signed_by_any : ⦃c : Bincode⦄ → List PublicKey → d.Decision → Bool
  signed_by_any ⦃c⦄ latest_section_keys decision =
      any
        (λ section_key.
          any
            (λ (p : NodeState × Signature). elim (c.serialize_node_state p.0) [
              | none ↦ false
              | some bytes ↦ b.verify section_key p.1 bytes
            ])
            (d.proposals decision))
        latest_section_keys

  -- `none` means that the fuel of `get_ancestors` ran out.
  unfoldable pub prune_members_archive :
      ⦃m : MerkleReg SectionInfo⦄ ⦃c : Bincode⦄
      → ℕ
      → SectionMemberHistory
      → SectionsDag
      → PublicKey
      → Option (Outcome SectionMemberHistory)
  prune_members_archive fuel self proof_chain last_key =
      elim (get_ancestors fuel proof_chain last_key) [
        | none ↦ none
        | some (err e) ↦ some (err e)
        | some (ok ancestors) ↦
            let latest_section_keys =
              take (elder_churn_events_to_prune_archive - 1) ancestors ++ last_key ∷ [] in
            some (
              ok (record self {
                archive = select (λ e. signed_by_any latest_section_keys e.1) self.archive;
              }))
      ]
