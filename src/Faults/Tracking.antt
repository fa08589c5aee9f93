-- ===== src/Faults/Tracking.antt =====
-- What the operations of `FaultDetection` do to the number of issues of each node and each kind.
use mathlib.Core.List.{tail, foldl}
use safe_network_archive.Extern.{XorNames, XorName, names_ord}
use safe_network_archive.Faults.{
  FaultDetection, IssueType, TimedTracker, queue_of, push_back, pop_front, track_issue,
  dkg_ack_fulfilled, elder_vote_received, ae_update_msg_received, all_current_nodes, forget_node,
  forget_nodes, update_and_only_retain_members, tracker, get_node_issue_count_for_type,
}
use safe_network_archive.Prelude.{
  ℕ, ◌+◌, ◌-◌, ◌≡◌, refl, Bool, true, false, not, ◌&&◌, ◌||◌, List, [], ◌∷◌, ◌++◌, if◌then◌else◌,
  select, length, length-append, ◌=?◌, arith, Option-cases, inl, inr,
}
use safe_network_archive.Prelude.Map
use safe_network_archive.Prelude.Sets

abbrev pub same_type : IssueType → IssueType → Bool
same_type IssueType.dkg IssueType.dkg = true
same_type IssueType.elder_voting IssueType.elder_voting = true
same_type IssueType.ae_probe_msg IssueType.ae_probe_msg = true
same_type IssueType.communication IssueType.communication = true
same_type IssueType.network_knowledge IssueType.network_knowledge = true
same_type IssueType.request_operation IssueType.request_operation = true
same_type _ _ = false

module _ ⦃x : XorNames⦄ where
  queue-push_back :
      (now : ℕ) (node j : XorName) (issues : TimedTracker)
      → length (queue_of j (push_back now node issues))
        ≡ (if node =? j then length (queue_of j issues) + 1 else length (queue_of j issues))
  unfolding push_back
  queue-push_back now node j issues = ground (
    arith,
    Map.get-insert node j (queue_of node issues ++ now ∷ []) issues,
    length-append (queue_of node issues) (now ∷ []),
    x.name_ord.beq_iff node j,
  )

  tracker-track_issue :
      (now : ℕ) (self : FaultDetection) (node : XorName) (kind other : IssueType)
      → tracker (track_issue now self node kind) other ≡ (
          if same_type kind other
          then push_back now node (tracker self other)
          else tracker self other)
  unfolding track_issue
  tracker-track_issue now self node IssueType.dkg other = ground arith
  tracker-track_issue now self node IssueType.elder_voting other = ground arith
  tracker-track_issue now self node IssueType.ae_probe_msg other = ground arith
  tracker-track_issue now self node IssueType.communication other = ground arith
  tracker-track_issue now self node IssueType.network_knowledge other = ground arith
  tracker-track_issue now self node IssueType.request_operation other = ground arith

  -- `track_issue` adds one to the number of issues of that node and kind, and changes no other.
  pub count-track_issue :
      (now : ℕ) (self : FaultDetection) (node j : XorName) (kind other : IssueType)
      → get_node_issue_count_for_type (track_issue now self node kind) j other ≡ (
          if node =? j && same_type kind other
          then get_node_issue_count_for_type self j other + 1
          else get_node_issue_count_for_type self j other)
  unfolding get_node_issue_count_for_type
  count-track_issue now self node j kind other =
      rw (tracker-track_issue now self node kind other)
        (ground (arith, queue-push_back now node j (tracker self other)))

  length-tail : {A : Type 0} (xs : List A) → length (tail xs) ≡ length xs - 1
  length-tail [] = refl
  length-tail (y ∷ xs) = omega arith

  queue-pop_front :
      (node j : XorName) (issues : TimedTracker)
      → length (queue_of j (pop_front node issues))
        ≡ (if node =? j then length (queue_of j issues) - 1 else length (queue_of j issues))
  unfolding pop_front
  queue-pop_front node j issues = elim (Option-cases (Map.get node issues)) [
    | inl z ↦ rw (z, pop_front) (ground (arith, x.name_ord.beq_iff node j))
    | inr (queue, z) ↦
        rw (z, pop_front)
          (ground (
            arith,
            Map.get-insert node j (tail queue) issues,
            length-tail queue,
            x.name_ord.beq_iff node j,
          ))
  ]

  -- The answer to a kind of issue: which operation takes it back.
  abbrev pub answered : IssueType → FaultDetection → XorName → FaultDetection
  answered IssueType.dkg self node = dkg_ack_fulfilled self node
  answered IssueType.elder_voting self node = elder_vote_received self node
  answered IssueType.ae_probe_msg self node = ae_update_msg_received self node
  answered _ self node = self

  abbrev pub is_answerable : IssueType → Bool
  is_answerable IssueType.dkg = true
  is_answerable IssueType.elder_voting = true
  is_answerable IssueType.ae_probe_msg = true
  is_answerable _ = false

  -- An answer to a DKG, vote or probe issue takes one from the number of issues of that kind at the
  -- node, unless it is zero, and changes no other number.
  pub count-answered :
      (self : FaultDetection) (node j : XorName) (kind other : IssueType)
      → is_answerable kind ≡ true
      → get_node_issue_count_for_type (answered kind self node) j other ≡ (
          if node =? j && same_type kind other
          then get_node_issue_count_for_type self j other - 1
          else get_node_issue_count_for_type self j other)
  unfolding get_node_issue_count_for_type dkg_ack_fulfilled elder_vote_received
      ae_update_msg_received
  count-answered self node j IssueType.dkg other h =
      ground (arith, queue-pop_front node j self.dkg_issues)
  count-answered self node j IssueType.elder_voting other h =
      ground (arith, queue-pop_front node j self.elder_voting_issues)
  count-answered self node j IssueType.ae_probe_msg other h =
      ground (arith, queue-pop_front node j self.probe_issues)
  count-answered self node j _ other h = cc

  count-forget_node :
      (self : FaultDetection) (node j : XorName) (kind : IssueType)
      → get_node_issue_count_for_type (forget_node self node) j kind
        ≡ (if node =? j then 0 else get_node_issue_count_for_type self j kind)
  unfolding get_node_issue_count_for_type forget_node
  count-forget_node self node j IssueType.dkg =
      ground (arith, Map.get-remove node j self.dkg_issues)
  count-forget_node self node j IssueType.elder_voting =
      ground (arith, Map.get-remove node j self.elder_voting_issues)
  count-forget_node self node j IssueType.ae_probe_msg =
      ground (arith, Map.get-remove node j self.probe_issues)
  count-forget_node self node j IssueType.communication =
      ground (arith, Map.get-remove node j self.communication_issues)
  count-forget_node self node j IssueType.network_knowledge =
      ground (arith, Map.get-remove node j self.network_knowledge_issues)
  count-forget_node self node j IssueType.request_operation =
      ground (arith, Map.get-remove node j self.unfulfilled_ops)

  count-forget_nodes :
      (self : FaultDetection) (nodes : List XorName) (j : XorName) (kind : IssueType)
      → get_node_issue_count_for_type (forget_nodes self nodes) j kind
        ≡ (if Sets.contains j nodes then 0 else get_node_issue_count_for_type self j kind)
  unfolding forget_nodes Sets.contains
  count-forget_nodes self [] j kind = refl
  count-forget_nodes self (node ∷ nodes) j kind = ground (
    arith,
    count-forget_nodes (forget_node self node) nodes j kind,
    count-forget_node self node j kind,
  )

  contains-insert_all :
      (j : XorName) (xs acc : List XorName)
      → Sets.contains j (foldl (λ nodes node. Sets.insert node nodes) acc xs)
        ≡ (Sets.contains j xs || Sets.contains j acc)
  unfolding Sets.contains
  contains-insert_all j [] acc = refl
  contains-insert_all j (y ∷ xs) acc =
      ground (arith, contains-insert_all j xs (Sets.insert y acc), Sets.contains-insert y j acc)

  -- After `update_and_only_retain_members` a node that was tracked and is no member any more has no
  -- issues, and every other node has as many issues of each kind as before.
  pub count-update_and_only_retain_members :
      (self : FaultDetection) (non_elder_nodes elders : List XorName) (j : XorName)
      (kind : IssueType)
      → get_node_issue_count_for_type
          (update_and_only_retain_members self non_elder_nodes elders)
          j
          kind
        ≡ (if (Sets.contains j self.non_elder_nodes || Sets.contains j self.elders)
              && (not (Sets.contains j non_elder_nodes) && not (Sets.contains j elders))
            then 0
            else get_node_issue_count_for_type self j kind)
  unfolding update_and_only_retain_members all_current_nodes get_node_issue_count_for_type
      Sets.contains
  count-update_and_only_retain_members self non_elder_nodes elders j kind =
      let first = foldl (λ nodes node. Sets.insert node nodes) [] self.non_elder_nodes in
      let gone =
        λ (n : XorName). not (Sets.contains n non_elder_nodes) && not (Sets.contains n elders) in
      ground (
        arith,
        count-forget_nodes (record self { non_elder_nodes = non_elder_nodes; elders = elders })
            (select gone (all_current_nodes self)) j kind,
        Sets.contains-select gone j (all_current_nodes self),
        contains-insert_all j self.elders first,
        contains-insert_all j self.non_elder_nodes [],
      )
