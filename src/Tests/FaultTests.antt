-- ===== src/Tests/FaultTests.antt =====
-- Runs of `FaultDetection` with concrete names and decimal fractions, and its theorems there.
use safe_network_archive.Extern.{Floats}
use safe_network_archive.Faults.Cleanup.{queue-cleanup}
use safe_network_archive.Faults.Report.{get_faulty_nodes-tracked, get_faulty_nodes-has_issue}
use safe_network_archive.Faults.Scores.{
  cleanup_time_sensistive_checks, get_faulty_nodes, sort_scores, place, get_weighted_scores,
  final_scores, calculate_scores, scores_for, threshold_of, std_deviation, get_mean_of, sum,
  final_score, calculate_node_score_for_type, retain_recent, other_node_counts,
}
use safe_network_archive.Faults.Tracking.{
  count-track_issue, count-answered, count-update_and_only_retain_members,
}
use safe_network_archive.Faults.{
  FaultDetection, IssueType, queue_of, tracker, track_issue, dkg_ack_fulfilled,
  update_and_only_retain_members, get_node_issue_count_for_type,
}
use safe_network_archive.Faults
use safe_network_archive.Prelude.{
  ℕ, zero, suc, ◌+◌, ◌-◌, ◌*◌, ◌/◌, ◌≡◌, refl, true, [], ◌∷◌, arith, In, inl, leb, ltb, select,
  if◌then◌else◌, ◌==◌, ◌||◌, nat_ord,
}
use safe_network_archive.Prelude.Map
use safe_network_archive.Prelude.Sets
use safe_network_archive.Tests.Names.{toy_names}

abbrev isqrt_loop : ℕ → ℕ → ℕ
isqrt_loop zero n = 0
isqrt_loop (suc k) n = if leb (suc k * suc k) n then suc k else isqrt_loop k n

-- Fractions in tenths, rounded down; a difference is a distance.
instance abbrev toy_floats : Floats
toy_floats = record {
  F = ℕ;
  of_ℕ = λ n. 10 * n;
  to_ℕ = λ a. a / 10;
  tenths = λ n. n;
  add = λ a c. a + c;
  sub = λ a c. (a - c) + (c - a);
  mul = λ a c. a * c / 10;
  div = λ a c. if c == 0 then 0 else a * 10 / c;
  sqrt = λ a. isqrt_loop 70 (10 * a);
  ceil = λ a. (a + 9) / 10 * 10;
  lt = ltb;
  add-zero = refl;
  zero-mul = λ n. omega arith;
  to_ℕ-zero = refl;
}

fault_program : Unit {0}
unfolding track_issue dkg_ack_fulfilled get_node_issue_count_for_type update_and_only_retain_members
    Faults.new
fault_program = tt

abbrev start : FaultDetection
start = record {
  communication_issues = [];
  dkg_issues = (16, 1000 ∷ 1001 ∷ 1002 ∷ 1003 ∷ 1004 ∷ 1005 ∷ 1006 ∷ []) ∷ [];
  elder_voting_issues = (2, 5 ∷ []) ∷ [];
  probe_issues = [];
  network_knowledge_issues = (3, 100 ∷ 1001 ∷ []) ∷ [];
  unfulfilled_ops = [];
  non_elder_nodes = 4 ∷ 5 ∷ 6 ∷ 7 ∷ 8 ∷ 9 ∷ 10 ∷ 11 ∷ 12 ∷ 13 ∷ 14 ∷ 15 ∷ 16 ∷ 17 ∷ [];
  elders = 1 ∷ 2 ∷ [];
}

count-track_issue_run :
    get_node_issue_count_for_type (track_issue 1010 start 16 IssueType.dkg) 16 IssueType.dkg
    ≡ get_node_issue_count_for_type start 16 IssueType.dkg + 1
count-track_issue_run = count-track_issue 1010 start 16 16 IssueType.dkg IssueType.dkg

count-answered_run :
    get_node_issue_count_for_type (dkg_ack_fulfilled start 16) 16 IssueType.dkg
    ≡ get_node_issue_count_for_type start 16 IssueType.dkg - 1
count-answered_run = count-answered start 16 16 IssueType.dkg IssueType.dkg refl

count-update_and_only_retain_members_run :
    get_node_issue_count_for_type
      (update_and_only_retain_members start (4 ∷ []) (1 ∷ []))
      16
      IssueType.dkg
    ≡ 0
unfolding Sets.contains
count-update_and_only_retain_members_run =
    count-update_and_only_retain_members start (4 ∷ []) (1 ∷ []) 16 IssueType.dkg

-- The old report is dropped, the missing vote is not.
queue-cleanup_example :
    queue_of 3 (tracker (cleanup_time_sensistive_checks 1010 start) IssueType.network_knowledge)
    ≡ 1001 ∷ []
unfolding Map.get select
queue-cleanup_example = queue-cleanup 1010 start 3 IssueType.network_knowledge

faulty : (get_faulty_nodes 1010 start).1 ≡ 16 ∷ []
unfolding fault_program get_faulty_nodes sort_scores place get_weighted_scores select final_scores
    calculate_scores scores_for cleanup_time_sensistive_checks Map.insert threshold_of std_deviation
    get_mean_of sum final_score calculate_node_score_for_type retain_recent other_node_counts
    Map.get
faulty = refl

In-faulty : In 16 (get_faulty_nodes 1010 start).1
In-faulty = rw faulty (inl refl)

faulty_are_tracked :
    (Sets.contains ⦃o = nat_ord⦄ 16 (FaultDetection.elders start)
      || Sets.contains ⦃o = nat_ord⦄ 16 (FaultDetection.non_elder_nodes start))
    ≡ true
faulty_are_tracked = get_faulty_nodes-tracked 1010 start 16 In-faulty

quiet_five :
    (kind : IssueType)
    → get_node_issue_count_for_type (cleanup_time_sensistive_checks 1010 start) 5 kind ≡ 0
unfolding fault_program cleanup_time_sensistive_checks retain_recent Map.get select
quiet_five IssueType.ae_probe_msg = refl
quiet_five IssueType.dkg = refl
quiet_five IssueType.elder_voting = refl
quiet_five IssueType.communication = refl
quiet_five IssueType.network_knowledge = refl
quiet_five IssueType.request_operation = refl

get_faulty_nodes-has_issue_run : ¬ In 5 (get_faulty_nodes 1010 start).1
get_faulty_nodes-has_issue_run = get_faulty_nodes-has_issue 1010 start 5 quiet_five
