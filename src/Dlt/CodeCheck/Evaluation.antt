-- ===== src/Dlt/CodeCheck/Evaluation.antt =====
-- `_evaluate` of src/dlt/code_check.py: one function for each stretch of it between two of its
-- values, so that each early return is a branch.
mod Report
unfoldable pub use Report.*
use agentic_resident_crm.Prelude.{
  ℕ, Bool, true, false, not, List, [], ◌∷◌, ◌++◌, Option, none, some, if◌then◌else◌, ltb, text_eq,
  Text, take, keep, length, contains,
}
use agentic_resident_crm.Dlt.Findings.{
  FailureClass, business, code_defect, CheckVerdict, no_change, not_deployed, fix_deployed,
  undecided,
}
use agentic_resident_crm.Dlt.Versions.{Version, Operand, text, version, at_least, is_ahead, lowest}
use agentic_resident_crm.Dlt.CodeCheck.Frames.{FrameLocation, LocationEntry, locations_of}
use agentic_resident_crm.Dlt.CodeCheck.Probes.{
  Repo, slug, Commit, Bitbucket, FrameProbe, mapped, unreadable, probe_path,
}
use agentic_resident_crm.Dlt.CodeCheck.Shipping.{Candidate, Scan, scan_probes, no_scan}

module _ (custom : Text → Option Text) where
  -- `baseline is not None and versions.is_ahead(required, baseline) is not True`
  unfoldable pub has_not_moved : Option Version → Text → Bool
  has_not_moved none required = false
  has_not_moved (some baseline) required =
      not_true (is_ahead custom (text required) (version baseline))

  unfoldable pub by_deployed : Evidence → Text → Option Version → Option Bool → CodeCheck
  by_deployed evidence required baseline none = unknown_check (not_ordered required) evidence
  by_deployed evidence required none (some true) = unknown_check (no_baseline required) evidence
  by_deployed evidence required (some b) (some true) =
      check fix_deployed (running_carries required) evidence
  by_deployed evidence required baseline (some false) =
      check not_deployed (running_behind required) evidence

  unfoldable pub against_running : Evidence → Text → Option Version → Option Version → CodeCheck
  unfolding has_not_moved by_deployed
  against_running evidence required baseline none = unknown_check (running_unread required) evidence
  against_running evidence required baseline (some running) =
      let verdict =
        by_deployed evidence required baseline
          (at_least custom (version running) (text required)) in
      if has_not_moved baseline required
      then unknown_check (version_not_moved required) evidence
      else verdict

  unfoldable pub by_required : Evidence → Option Version → Option Version → Option Text → CodeCheck
  unfolding against_running
  by_required evidence baseline running none =
      unknown_check (no_version_resolved (length evidence.candidates)) evidence
  by_required evidence baseline running (some []) =
      check not_deployed (not_cut_yet (length evidence.candidates)) evidence
  by_required evidence baseline running (some (c ∷ t)) =
      against_running (record evidence { required_version = some (c ∷ t) }) (c ∷ t) baseline running

module _ (bitbucket : Bitbucket) (custom : Text → Option Text) (settings : CheckSettings) where
  unfoldable pub by_scan : Evidence → Option Version → Option Version → Scan → CodeCheck
  unfolding by_required
  by_scan evidence baseline running scan =
      by_required custom (record evidence { candidates = scan.candidates }) baseline running
        scan.required

  unfoldable pub in_repo :
      Evidence → Option Version → Option Version → List FrameProbe → Option Repo → CodeCheck
  unfolding by_scan scan_probes
  in_repo evidence baseline running touched none = unknown_check raised no_evidence
  in_repo evidence baseline running touched (some repo) =
      by_scan evidence baseline running
        (scan_probes bitbucket custom repo settings.max_candidates touched no_scan)

  unfoldable pub by_touched :
      Evidence → Option Version → Option Version → List FrameProbe → CodeCheck
  unfolding in_repo distinct
  by_touched evidence baseline running [] =
      check no_change (untouched (length evidence.paths_checked) evidence.frames_unmapped) evidence
  by_touched evidence baseline running (p ∷ ps) =
      let repos = length (distinct [] (slugs_of (p ∷ ps))) in
      let verdict = in_repo evidence baseline running (p ∷ ps) p.repo in
      if ltb 1 repos then unknown_check (several_repositories repos) evidence else verdict

  -- `unread` are the mapped probes that could not be read.
  unfoldable pub by_unread :
      Evidence → List Operand → List Operand → List FrameProbe → List FrameProbe → CodeCheck
  unfolding by_touched lowest distinct
  by_unread evidence baselines runnings resolved [] =
      let baseline = lowest_read custom baselines in
      let running = lowest_read custom runnings in
      by_touched (read_versions evidence baseline running) baseline running
        (keep has_commits resolved)
  by_unread evidence baselines runnings resolved (u ∷ us) =
      unknown_check
        (unread_files (length (distinct [] (paths_of (u ∷ us)))) (length evidence.paths_checked))
        evidence

  -- `resolved` are the mapped probes, `count` all of them.
  unfoldable pub by_resolved : ℕ → ℕ → List Operand → List Operand → List FrameProbe → CodeCheck
  unfolding by_unread distinct
  by_resolved count unmapped baselines runnings [] =
      unknown_check no_frame_mapped
        (record no_evidence { frames_examined = count; frames_unmapped = unmapped })
  by_resolved count unmapped baselines runnings (site ∷ rest) =
      by_unread
        (record no_evidence {
          frames_examined = count;
          frames_resolved = length (site ∷ rest);
          frames_unmapped = unmapped;
          repo = first_slug site.repo;
          path = site.path;
          branch = branch_of site.repo;
          paths_checked = distinct [] (paths_of (site ∷ rest));
        })
        baselines runnings (site ∷ rest) (keep unreadable (site ∷ rest))

  unfoldable pub by_probes : List Operand → List Operand → List FrameProbe → CodeCheck
  unfolding by_resolved
  by_probes baselines runnings probes =
      by_resolved (length probes) (length (keep (λ p. not (mapped p)) probes)) baselines runnings
        (keep mapped probes)

  unfoldable pub by_locations :
      Option ℕ → List Operand → List Operand → List FrameLocation → CodeCheck
  unfolding by_probes probe_path
  by_locations failed_at baselines runnings [] = unknown_check no_location no_evidence
  by_locations failed_at baselines runnings (l ∷ ls) = by_probes baselines runnings (
      probe_path bitbucket settings.branch_override failed_at
        (take settings.frames_to_check (l ∷ ls)))

  unfoldable pub evaluate : Failure → Option ℕ → List Operand → List Operand → CodeCheck
  unfolding by_locations locations_of
  evaluate failure failed_at baselines runnings =
      let verdict = by_locations failed_at baselines runnings (locations_of failure.locations) in
      if not settings.enabled
      then unknown_check switched_off no_evidence
      else if not (is_checked failure.failure_class)
      then unknown_check class_not_checked no_evidence
      else if not bitbucket.configured
      then unknown_check not_configured no_evidence
      else verdict
