-- ===== src/Faults/Report.antt =====
-- Which nodes `get_faulty_nodes` reports.
use mathlib.Core.List.{map}
use safe_network_archive.Extern.{XorNames, XorName, names_ord, Floats}
use safe_network_archive.Faults.{FaultDetection, IssueType, get_node_issue_count_for_type}
use safe_network_archive.Faults.Scores.{
  Scores, cleanup_time_sensistive_checks, place, sort_scores, scores_for,
  calculate_node_score_for_type, calculate_scores, final_score, final_scores, threshold_of,
  get_weighted_scores, get_faulty_nodes,
}
use safe_network_archive.Prelude.{
  ℕ, ◌≡◌, refl, sym, ap, ◌∙◌, ◌⊎◌, inl, inr, Bool, true, ◌&&◌, ◌||◌, List, [], ◌∷◌, some,
  if◌then◌else◌, In-select, In, In-append, ltb, leb, arith, Bool-cases,
}
use safe_network_archive.Prelude.Map
use safe_network_archive.Prelude.Sets

In-map :
    {A B : Type 0} (f : A → B) (y : B) (xs : List A)
    → In y (map f xs)
    → (a : A) × In a xs × (y ≡ f a)
In-map f y [] i = absurd i
In-map f y (a ∷ xs) (inl e) = (a, inl refl, e)
In-map f y (a ∷ xs) (inr i) = let (c, j, e) = In-map f y xs i in (c, inr j, e)

module _ ⦃x : XorNames⦄ where
  In-place : (e f : XorName × ℕ) (l : List (XorName × ℕ)) → In e (place f l) → (e ≡ f) ⊎ In e l
  unfolding place
  In-place e f [] i = i
  In-place e f (g ∷ l) i = elim (Bool-cases (leb g.1 f.1)) [
    | inl y ↦ rw (y, place) at i
    | inr n ↦ elim (rw (n, place) at i) [
      | inl p ↦ inr (inl p)
      | inr r ↦ elim (In-place e f l r) [ inl p ↦ inl p | inr q ↦ inr (inr q) ]
    ]
  ]

  In-sort_scores : (e : XorName × ℕ) (l : List (XorName × ℕ)) → In e (sort_scores l) → In e l
  unfolding sort_scores
  In-sort_scores e [] i = i
  In-sort_scores e (f ∷ l) i = elim (In-place e f (sort_scores l) i) [
    | inl p ↦ inl p
    | inr r ↦ inr (In-sort_scores e l r)
  ]

module _ ⦃x : XorNames⦄ ⦃f : Floats⦄ (self : FaultDetection) where
  In-scores_for :
      (kind : IssueType) (acc : Scores) (nodes : List XorName) (n : XorName) (s : f.F)
      → In (n, s) (scores_for self kind acc nodes)
      → ((Sets.contains n nodes ≡ true) × (s ≡ calculate_node_score_for_type self n kind))
        ⊎ In (n, s) acc
  unfolding scores_for Sets.contains
  In-scores_for kind acc [] n s i = inr i
  In-scores_for kind acc (node ∷ nodes) n s i =
      let score = calculate_node_score_for_type self node kind in
      elim (In-scores_for kind (Map.insert node score acc) nodes n s i) [
        | inl (c, e) ↦ inl (ground arith, e)
        | inr j ↦ elim (Map.In-insert (n, s) node score acc j) [
          | inl p ↦
              let q : n ≡ node = λ i. (p i).0 in
              let r : s ≡ score = λ i. (p i).1 in
              inl (
                ground (arith, x.name_ord.beq_iff node n),
                r ∙ ap (λ k. calculate_node_score_for_type self k kind) (sym q),
              )
          | inr k ↦ inr k
        ]
      ]

  get-scores_for :
      (kind : IssueType) (acc : Scores) (nodes : List XorName) (n : XorName)
      → Map.get n (scores_for self kind acc nodes) ≡ (
          if Sets.contains n nodes
          then some (calculate_node_score_for_type self n kind)
          else Map.get n acc)
  unfolding scores_for Sets.contains
  get-scores_for kind acc [] n = refl
  get-scores_for kind acc (node ∷ nodes) n =
      let score = calculate_node_score_for_type self node kind in
      ground (
        arith,
        get-scores_for kind (Map.insert node score acc) nodes n,
        Map.get-insert node n score acc,
        x.name_ord.beq_iff node n,
      )

  In-final_scores :
      (scores : _) (l : Scores) (n : XorName) (s : f.F)
      → In (n, s) (final_scores scores l)
      → (t : f.F) × In (n, t) l × (s ≡ final_score scores n t)
  unfolding final_scores
  In-final_scores scores [] n s i = absurd i
  In-final_scores scores ((m, t) ∷ l) n s (inl p) =
      let q : n ≡ m = λ i. (p i).0 in
      let r : s ≡ final_score scores m t = λ i. (p i).1 in
      (t, inl (λ i. (q i, t)), r ∙ ap (λ k. final_score scores k t) (sym q))
  In-final_scores scores ((m, t) ∷ l) n s (inr i) =
      let (u, j, e) = In-final_scores scores l n s i in (u, inr j, e)

  -- An entry that passes the threshold is the truncated final score of a node asked about.
  In-get_weighted_scores :
      (nodes : List XorName) (n : XorName) (k : ℕ)
      → In (n, k) (get_weighted_scores self nodes)
      → (Sets.contains n nodes ≡ true)
        × (k
            ≡ f.to_ℕ (
                final_score
                  (calculate_scores self nodes)
                  n
                  (calculate_node_score_for_type self n IssueType.request_operation)))
        × (ltb 1 k ≡ true)
  unfolding get_weighted_scores scores_for calculate_scores
  In-get_weighted_scores nodes n k i =
      let scores = calculate_scores self nodes in
      let weighted = final_scores scores scores.op_scores in
      let threshold = threshold_of (map (λ e. e.1) weighted) in
      let entry : XorName × f.F → XorName × ℕ = λ e. (e.0, f.to_ℕ e.1) in
      let above : XorName × ℕ → Bool = λ e. leb threshold e.1 && ltb 1 threshold in
      let (j, passed) = In-select above (n, k) (map entry weighted) i in
      let ((m, s), j', e) = In-map entry (n, k) weighted j in
      let (t, j'', e') = In-final_scores scores scores.op_scores m s j' in
      elim (In-scores_for IssueType.request_operation [] nodes m t j'') [
        | inl (c, e'') ↦
            let p : n ≡ m = λ i. (e i).0 in
            let q : k ≡ f.to_ℕ s = λ i. (e i).1 in
            (
              rw p c,
              q
                  ∙ ap f.to_ℕ (e' ∙ ap (final_score scores m) e'')
                  ∙ ap
                      (λ o. f.to_ℕ (
                        final_score scores o
                          (calculate_node_score_for_type self o IssueType.request_operation)))
                      (sym p),
              ground arith,
            )
        | inr a ↦ absurd a
      ]

  score-quiet :
      (n : XorName) (kind : IssueType)
      → get_node_issue_count_for_type self n kind ≡ 0
      → calculate_node_score_for_type self n kind ≡ f.tenths 0
  unfolding calculate_node_score_for_type
  score-quiet n kind e = ground arith

  -- With no issue of any kind every score is zero, and so is their sum.
  final_score-zero :
      (nodes : List XorName) (n : XorName)
      → Sets.contains n nodes ≡ true
      → ((kind : IssueType) → get_node_issue_count_for_type self n kind ≡ 0)
      → f.to_ℕ (
          final_score
            (calculate_scores self nodes)
            n
            (calculate_node_score_for_type self n IssueType.request_operation))
        ≡ 0
  unfolding final_score calculate_scores
  final_score-zero nodes n c quiet =
      let score : (kind : IssueType) → calculate_node_score_for_type self n kind ≡ f.tenths 0 =
        λ kind. score-quiet n kind (quiet kind) in
      let found : (kind : IssueType)
          → Map.get n (scores_for self kind [] nodes) ≡ some (f.tenths 0) =
        λ kind. ground (arith, get-scores_for kind [] nodes n, score kind) in
      rw
        (
          final_score,
          found IssueType.communication,
          found IssueType.dkg,
          found IssueType.elder_voting,
          found IssueType.network_knowledge,
          found IssueType.ae_probe_msg,
          score IssueType.request_operation,
          f.zero-mul 10,
          f.zero-mul 15,
          f.zero-mul 20,
          f.zero-mul 25,
          f.add-zero,
          f.add-zero,
          f.add-zero,
          f.add-zero,
          f.add-zero,
        )
        f.to_ℕ-zero

module _ ⦃x : XorNames⦄ ⦃f : Floats⦄ where
  In-get_faulty_nodes :
      (now : ℕ) (self : FaultDetection) (n : XorName)
      → In n (get_faulty_nodes now self).1
      → (nodes : List XorName) × (k : ℕ) × ((nodes ≡ self.elders) ⊎ (nodes ≡ self.non_elder_nodes))
        × In (n, k) (get_weighted_scores (get_faulty_nodes now self).0 nodes)
  unfolding get_faulty_nodes cleanup_time_sensistive_checks
  In-get_faulty_nodes now self n i =
      let cleaned = cleanup_time_sensistive_checks now self in
      let name : XorName × ℕ → XorName = λ e. e.0 in
      let elder_scores = sort_scores (get_weighted_scores cleaned self.elders) in
      let non_elder_scores = sort_scores (get_weighted_scores cleaned self.non_elder_nodes) in
      elim (In-append n (map name elder_scores) (map name non_elder_scores) i) [
        | inl j ↦
            let (s, j', p) = In-map name n elder_scores j in
            let e : (n, s.1) ≡ s = λ i. (p i, s.1) in
            (self.elders, s.1, inl refl, rw e (In-sort_scores s _ j'))
        | inr j ↦
            let (s, j', p) = In-map name n non_elder_scores j in
            let e : (n, s.1) ≡ s = λ i. (p i, s.1) in
            (self.non_elder_nodes, s.1, inr refl, rw e (In-sort_scores s _ j'))
      ]

  -- `get_faulty_nodes` reports only nodes that are tracked, as elders or as other nodes.
  pub get_faulty_nodes-tracked :
      (now : ℕ) (self : FaultDetection) (n : XorName)
      → In n (get_faulty_nodes now self).1
      → (Sets.contains n self.elders || Sets.contains n self.non_elder_nodes) ≡ true
  get_faulty_nodes-tracked now self n i =
      let (nodes, k, which, j) = In-get_faulty_nodes now self n i in
      let (c, _, _) = In-get_weighted_scores (get_faulty_nodes now self).0 nodes n k j in
      elim which [ inl e ↦ ground arith | inr e ↦ ground arith ]

  -- `get_faulty_nodes` never reports a node that has no issue of any kind left after the clean-up,
  -- whatever the other nodes' issues are.
  pub get_faulty_nodes-has_issue :
      (now : ℕ) (self : FaultDetection) (n : XorName)
      → ((kind : IssueType)
          → get_node_issue_count_for_type (cleanup_time_sensistive_checks now self) n kind ≡ 0)
      → ¬ In n (get_faulty_nodes now self).1
  unfolding get_faulty_nodes
  get_faulty_nodes-has_issue now self n quiet i =
      let (nodes, k, _, j) = In-get_faulty_nodes now self n i in
      let (c, e, above) =
        In-get_weighted_scores (cleanup_time_sensistive_checks now self) nodes n k j in
      let z = final_score-zero (cleanup_time_sensistive_checks now self) nodes n c quiet in
      ground arith
