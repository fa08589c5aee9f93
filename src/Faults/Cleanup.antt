-- ===== src/Faults/Cleanup.antt =====
-- What the clean-up before a report drops.
use safe_network_archive.Extern.{XorNames, XorName, names_ord}
use safe_network_archive.Faults.{FaultDetection, IssueType, TimedTracker, queue_of, tracker}
use safe_network_archive.Faults.Scores.{
  recent_issue_duration, retain_recent, cleanup_time_sensistive_checks,
}
use safe_network_archive.Faults.Tracking.{same_type}
use safe_network_archive.Prelude.{ℕ, ◌-◌, ◌≡◌, refl, [], ◌∷◌, if◌then◌else◌, select, ltb, arith}
use safe_network_archive.Prelude.Map

module _ ⦃x : XorNames⦄ where
  queue-retain_recent :
      (now : ℕ) (j : XorName) (issues : TimedTracker)
      → queue_of j (retain_recent now issues)
        ≡ select (λ time. ltb (now - time) recent_issue_duration) (queue_of j issues)
  unfolding retain_recent Map.get select
  queue-retain_recent now j [] = refl
  queue-retain_recent now j ((node, issues) ∷ rest) = ground (arith, queue-retain_recent now j rest)

  -- The clean-up keeps of every node and kind the issues of the last ten minutes; of the elder
  -- voting issues it keeps all.
  pub queue-cleanup :
      (now : ℕ) (self : FaultDetection) (j : XorName) (kind : IssueType)
      → queue_of j (tracker (cleanup_time_sensistive_checks now self) kind) ≡ (
          if same_type kind IssueType.elder_voting
          then queue_of j (tracker self kind)
          else select
              (λ time. ltb (now - time) recent_issue_duration)
              (queue_of j (tracker self kind)))
  unfolding cleanup_time_sensistive_checks
  queue-cleanup now self j IssueType.dkg = queue-retain_recent now j self.dkg_issues
  queue-cleanup now self j IssueType.elder_voting = refl
  queue-cleanup now self j IssueType.ae_probe_msg = queue-retain_recent now j self.probe_issues
  queue-cleanup now self j IssueType.communication =
      queue-retain_recent now j self.communication_issues
  queue-cleanup now self j IssueType.network_knowledge =
      queue-retain_recent now j self.network_knowledge_issues
  queue-cleanup now self j IssueType.request_operation =
      queue-retain_recent now j self.unfulfilled_ops
