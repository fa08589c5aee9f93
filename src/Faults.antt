-- ===== src/Faults.antt =====
-- `FaultDetection` of sn_fault_detection/src/lib.rs: the issues logged against the nodes of a
-- section. `Instant::now()` is an argument. The scores of detection.rs are in `Scores`.
pub mod Cleanup
pub mod Report
pub mod Scores
pub mod Tracking
use mathlib.Core.List.{tail, foldl}
use safe_network_archive.Extern.{XorNames, XorName, names_ord}
use safe_network_archive.Prelude.{
  ℕ, Bool, true, false, not, ◌&&◌, List, [], ◌∷◌, ◌++◌, Option, none, some, if◌then◌else◌, select,
  length,
}
use safe_network_archive.Prelude.Map
use safe_network_archive.Prelude.Sets

pub data IssueType : Type 0 where
  ae_probe_msg dkg elder_voting communication network_knowledge request_operation : IssueType

module _ ⦃x : XorNames⦄ where
  abbrev pub TimedTracker : Type 0
  TimedTracker = List (XorName × List ℕ)

  pub record FaultDetection : Type 0 where
    pub communication_issues : TimedTracker
    pub dkg_issues : TimedTracker
    pub elder_voting_issues : TimedTracker
    pub probe_issues : TimedTracker
    pub network_knowledge_issues : TimedTracker
    pub unfulfilled_ops : TimedTracker
    pub non_elder_nodes : List XorName
    pub elders : List XorName

  unfoldable pub new : List XorName → List XorName → FaultDetection
  new non_elder_nodes elders = record {
    communication_issues = [];
    dkg_issues = [];
    elder_voting_issues = [];
    probe_issues = [];
    network_knowledge_issues = [];
    unfulfilled_ops = [];
    non_elder_nodes = non_elder_nodes;
    elders = elders;
  }

  -- `entry(node).or_default()`.
  abbrev pub queue_of : XorName → TimedTracker → List ℕ
  queue_of node issues = elim (Map.get node issues) [ none ↦ [] | some queue ↦ queue ]

  unfoldable pub push_back : ℕ → XorName → TimedTracker → TimedTracker
  push_back now node issues = Map.insert node (queue_of node issues ++ now ∷ []) issues

  -- `get_mut(node)` and `pop_front`.
  unfoldable pub pop_front : XorName → TimedTracker → TimedTracker
  pop_front node issues = elim (Map.get node issues) [
    | none ↦ issues
    | some queue ↦ Map.insert node (tail queue) issues
  ]

  unfoldable pub track_issue : ℕ → FaultDetection → XorName → IssueType → FaultDetection
  track_issue now self node_id IssueType.dkg = record self {
    dkg_issues = push_back now node_id self.dkg_issues;
  }
  track_issue now self node_id IssueType.elder_voting = record self {
    elder_voting_issues = push_back now node_id self.elder_voting_issues;
  }
  track_issue now self node_id IssueType.ae_probe_msg = record self {
    probe_issues = push_back now node_id self.probe_issues;
  }
  track_issue now self node_id IssueType.communication = record self {
    communication_issues = push_back now node_id self.communication_issues;
  }
  track_issue now self node_id IssueType.network_knowledge = record self {
    network_knowledge_issues = push_back now node_id self.network_knowledge_issues;
  }
  track_issue now self node_id IssueType.request_operation = record self {
    unfulfilled_ops = push_back now node_id self.unfulfilled_ops;
  }

  unfoldable pub dkg_ack_fulfilled : FaultDetection → XorName → FaultDetection
  dkg_ack_fulfilled self node_id = record self { dkg_issues = pop_front node_id self.dkg_issues }

  unfoldable pub elder_vote_received : FaultDetection → XorName → FaultDetection
  elder_vote_received self node_id = record self {
    elder_voting_issues = pop_front node_id self.elder_voting_issues;
  }

  unfoldable pub ae_update_msg_received : FaultDetection → XorName → FaultDetection
  ae_update_msg_received self node_id = record self {
    probe_issues = pop_front node_id self.probe_issues;
  }

  unfoldable pub all_current_nodes : FaultDetection → List XorName
  all_current_nodes self =
      foldl (λ nodes node. Sets.insert node nodes)
        (foldl (λ nodes node. Sets.insert node nodes) [] self.non_elder_nodes) self.elders

  unfoldable pub add_new_node : FaultDetection → XorName → FaultDetection
  add_new_node self node = record self { non_elder_nodes = Sets.insert node self.non_elder_nodes }

  -- The body of the removal loop, and the loop.
  unfoldable pub forget_node : FaultDetection → XorName → FaultDetection
  forget_node self node = record self {
    communication_issues = Map.remove node self.communication_issues;
    network_knowledge_issues = Map.remove node self.network_knowledge_issues;
    dkg_issues = Map.remove node self.dkg_issues;
    elder_voting_issues = Map.remove node self.elder_voting_issues;
    probe_issues = Map.remove node self.probe_issues;
    unfulfilled_ops = Map.remove node self.unfulfilled_ops;
  }

  unfoldable pub forget_nodes : FaultDetection → List XorName → FaultDetection
  forget_nodes self [] = self
  forget_nodes self (node ∷ nodes) = forget_nodes (forget_node self node) nodes

  unfoldable pub update_and_only_retain_members :
      FaultDetection → List XorName → List XorName → FaultDetection
  update_and_only_retain_members self non_elder_nodes elders =
      let removed =
        select (λ n. not (Sets.contains n non_elder_nodes) && not (Sets.contains n elders))
          (all_current_nodes self) in
      forget_nodes (record self { non_elder_nodes = non_elder_nodes; elders = elders }) removed

  abbrev pub tracker : FaultDetection → IssueType → TimedTracker
  tracker self IssueType.communication = self.communication_issues
  tracker self IssueType.dkg = self.dkg_issues
  tracker self IssueType.ae_probe_msg = self.probe_issues
  tracker self IssueType.network_knowledge = self.network_knowledge_issues
  tracker self IssueType.elder_voting = self.elder_voting_issues
  tracker self IssueType.request_operation = self.unfulfilled_ops

  -- `get_node_get_node_issue_count_for_type_for_type` of detection.rs.
  unfoldable pub get_node_issue_count_for_type : FaultDetection → XorName → IssueType → ℕ
  get_node_issue_count_for_type self node issue_type =
      length (queue_of node (tracker self issue_type))
