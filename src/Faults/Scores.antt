-- ===== src/Faults/Scores.antt =====
-- sn_fault_detection/src/detection.rs: the scores of the nodes, and the faulty ones.
use mathlib.Core.List.{foldl, map}
use safe_network_archive.Extern.{XorNames, XorName, names_ord, Floats}
use safe_network_archive.Faults.{
  FaultDetection, IssueType, TimedTracker, get_node_issue_count_for_type,
}
use safe_network_archive.Prelude.{
  ℕ, ◌+◌, ◌-◌, ◌*◌, ◌&&◌, List, [], ◌∷◌, ◌++◌, Option, none, some, if◌then◌else◌, select, length,
  ltb, leb, ◌==◌, ◌=?◌,
}
use safe_network_archive.Prelude.Map

-- In seconds.
abbrev pub recent_issue_duration : ℕ
recent_issue_duration = 600

abbrev pub std_devs_away : ℕ
std_devs_away = 3

abbrev pub get_or : {A : Type 0} → A → Option A → A
get_or a none = a
get_or a (some b) = b

module _ ⦃x : XorNames⦄ where
  -- `retain` on every queue of a tracker; `now` and the instants are in seconds.
  unfoldable pub retain_recent : ℕ → TimedTracker → TimedTracker
  retain_recent now [] = []
  retain_recent now ((node, issues) ∷ rest) =
      (node, select (λ time. ltb (now - time) recent_issue_duration) issues)
      ∷ retain_recent now rest

  unfoldable pub cleanup_time_sensistive_checks : ℕ → FaultDetection → FaultDetection
  cleanup_time_sensistive_checks now self = record self {
    communication_issues = retain_recent now self.communication_issues;
    probe_issues = retain_recent now self.probe_issues;
    network_knowledge_issues = retain_recent now self.network_knowledge_issues;
    dkg_issues = retain_recent now self.dkg_issues;
    unfulfilled_ops = retain_recent now self.unfulfilled_ops;
  }

  -- `sorted_by` on the scores, highest first; it is stable.
  unfoldable pub place : XorName × ℕ → List (XorName × ℕ) → List (XorName × ℕ)
  place e [] = e ∷ []
  place e (f ∷ rest) = if leb f.1 e.1 then e ∷ f ∷ rest else f ∷ place e rest

  unfoldable pub sort_scores : List (XorName × ℕ) → List (XorName × ℕ)
  sort_scores [] = []
  sort_scores (e ∷ rest) = place e (sort_scores rest)

module _ ⦃x : XorNames⦄ ⦃f : Floats⦄ where
  unfoldable pub sum : List f.F → f.F
  sum data' = foldl f.add (f.tenths 0) data'

  unfoldable pub get_mean_of : List f.F → Option f.F
  get_mean_of data' =
      if ltb 0 (length data') then some (f.div (sum data') (f.of_ℕ (length data'))) else none

  unfoldable pub std_deviation : List f.F → Option f.F
  std_deviation data' = elim (get_mean_of data') [
    | none ↦ none
    | some data_mean ↦
        let squares = map (λ value. f.mul (f.sub data_mean value) (f.sub data_mean value)) data' in
        if ltb 0 (length data')
        then some (f.sqrt (f.div (sum squares) (f.of_ℕ (length data'))))
        else none
  ]

  -- The counts of the other nodes, elders left out.
  unfoldable pub other_node_counts : FaultDetection → XorName → IssueType → List XorName → List f.F
  other_node_counts self node issue_type [] = []
  other_node_counts self node issue_type (itr ∷ rest) =
      if itr =? node
      then other_node_counts self node issue_type rest
      else f.of_ℕ (get_node_issue_count_for_type self itr issue_type)
        ∷ other_node_counts self node issue_type rest

  unfoldable pub calculate_node_score_for_type : FaultDetection → XorName → IssueType → f.F
  calculate_node_score_for_type self node issue_type =
      let node_issue_count = get_node_issue_count_for_type self node issue_type in
      if node_issue_count == 0
      then f.tenths 0
      else (let average =
            get_or (f.tenths 10)
              (get_mean_of (other_node_counts self node issue_type self.non_elder_nodes)) in
          f.of_ℕ (node_issue_count - f.to_ℕ average))

  abbrev pub Scores : Type 0
  Scores = List (XorName × f.F)

  pub record ScoreResults : Type 0 where
    pub communication_scores : Scores
    pub dkg_scores : Scores
    pub elder_voting_scores : Scores
    pub knowledge_scores : Scores
    pub op_scores : Scores
    pub probe_scores : Scores

  -- The six maps are filled by one loop over the nodes; the insertions into each are collected.
  unfoldable pub scores_for : FaultDetection → IssueType → Scores → List XorName → Scores
  scores_for self issue_type scores [] = scores
  scores_for self issue_type scores (node ∷ rest) =
      scores_for self issue_type
        (Map.insert node (calculate_node_score_for_type self node issue_type) scores) rest

  unfoldable pub calculate_scores : FaultDetection → List XorName → ScoreResults
  calculate_scores self nodes_in_question = record {
    communication_scores = scores_for self IssueType.communication [] nodes_in_question;
    dkg_scores = scores_for self IssueType.dkg [] nodes_in_question;
    elder_voting_scores = scores_for self IssueType.elder_voting [] nodes_in_question;
    knowledge_scores = scores_for self IssueType.network_knowledge [] nodes_in_question;
    op_scores = scores_for self IssueType.request_operation [] nodes_in_question;
    probe_scores = scores_for self IssueType.ae_probe_msg [] nodes_in_question;
  }

  -- The weights, in tenths: 1.0, 1.5, 2.0 and 2.5.
  unfoldable pub final_score : ScoreResults → XorName → f.F → f.F
  final_score scores name score =
      let ops_score = f.mul score (f.tenths 10) in
      let one = f.tenths 10 in
      let node_conn_score =
        f.mul (get_or one (Map.get name scores.communication_scores)) (f.tenths 15) in
      let node_dkg_score = f.mul (get_or one (Map.get name scores.dkg_scores)) (f.tenths 20) in
      let node_elder_voting_score =
        f.mul (get_or one (Map.get name scores.elder_voting_scores)) (f.tenths 25) in
      let node_knowledge_score =
        f.mul (get_or one (Map.get name scores.knowledge_scores)) (f.tenths 20) in
      let node_probe_score = f.mul (get_or one (Map.get name scores.probe_scores)) (f.tenths 25) in
      f.add
        (f.add
          (f.add (f.add (f.add ops_score node_conn_score) node_knowledge_score)
            node_elder_voting_score)
          node_dkg_score)
        node_probe_score

  unfoldable pub final_scores : ScoreResults → Scores → Scores
  final_scores scores [] = []
  final_scores scores ((name, score) ∷ rest) =
      (name, final_score scores name score) ∷ final_scores scores rest

  unfoldable pub threshold_of : List f.F → ℕ
  threshold_of scores_only =
      let mean = get_or (f.tenths 10) (get_mean_of scores_only) in
      let std_dev = get_or (f.tenths 10) (std_deviation scores_only) in
      let at_least_1_as_std_dev =
        if f.lt std_dev (f.tenths 10) then f.tenths 10 else f.ceil std_dev in
      std_devs_away * f.to_ℕ at_least_1_as_std_dev + f.to_ℕ mean

  -- The names come in the order of a map, so the entries that stay are a sublist.
  unfoldable pub get_weighted_scores : FaultDetection → List XorName → List (XorName × ℕ)
  get_weighted_scores self nodes_in_question =
      let scores = calculate_scores self nodes_in_question in
      let weighted = final_scores scores scores.op_scores in
      let threshold = threshold_of (map (λ e. e.1) weighted) in
      select (λ e. leb threshold e.1 && ltb 1 threshold) (map (λ e. (e.0, f.to_ℕ e.1)) weighted)

  unfoldable pub get_faulty_nodes : ℕ → FaultDetection → FaultDetection × List XorName
  get_faulty_nodes now self =
      let self' = cleanup_time_sensistive_checks now self in
      let non_elder_scores = get_weighted_scores self' (FaultDetection.non_elder_nodes self') in
      let elder_scores = get_weighted_scores self' (FaultDetection.elders self') in
      (
        self',
        map (λ e. e.0) (sort_scores elder_scores) ++ map (λ e. e.0) (sort_scores non_elder_scores),
      )
