-- ===== src/Dlt/CodeCheck/Deployed.antt =====
-- What a positive verdict of the replay precheck rests on (src/dlt/code_check.py).
use agentic_resident_crm.Prelude.{
  ℕ, Bool, true, false, not, List, [], ◌∷◌, Option, none, some, if◌then◌else◌, ltb, Text, ◌≡◌, refl,
  Bool-cases, inl, inr, take, length, keep,
}
use agentic_resident_crm.Dlt.Findings.{fix_deployed}
use agentic_resident_crm.Dlt.Versions.{Version, Operand, text, version, at_least, is_ahead}
use agentic_resident_crm.Dlt.CodeCheck.Frames.{FrameLocation, locations_of}
use agentic_resident_crm.Dlt.CodeCheck.Probes.{
  Bitbucket, Repo, FrameProbe, mapped, unreadable, probe_path,
}
use agentic_resident_crm.Dlt.CodeCheck.Shipping.{scan_probes, no_scan}
use agentic_resident_crm.Dlt.CodeCheck.Evaluation.{
  CheckSettings, Evidence, CodeCheck, Failure, unknown_check, is_checked, lowest_read, not_true,
  has_not_moved, by_deployed, against_running, by_required, by_scan, in_repo, by_touched,
  read_versions, by_unread, by_resolved, by_probes, by_locations, evaluate, has_commits, distinct,
  slugs_of, switched_off, class_not_checked, not_configured, no_evidence,
}

-- The build that runs carries the version that carries the change, and that version is ahead of
-- the build that failed.
abbrev pub IsDeployed : (Text → Option Text) → Option Version → Option Version → CodeCheck → Type 0
IsDeployed custom baseline running c =
    (b : Version) × (r : Version) × (q : Text) × (baseline ≡ some b)
    × (running ≡ some r)
    × (c.evidence.required_version ≡ some q)
    × (at_least custom (version r) (text q) ≡ some true)
    × (is_ahead custom (text q) (version b) ≡ some true)

module _ (custom : Text → Option Text) where
  not_true-some : (o : Option Bool) → not_true o ≡ false → o ≡ some true
  not_true-some none h = cc
  not_true-some (some true) h = refl
  not_true-some (some false) h = cc

  by_deployed-IsDeployed :
      (evidence : Evidence) (q : Text) (baseline : Option Version) (r : Version) (o : Option Bool)
      → evidence.required_version ≡ some q
      → at_least custom (version r) (text q) ≡ o
      → has_not_moved custom baseline q ≡ false
      → (by_deployed custom evidence q baseline o).verdict ≡ fix_deployed
      → IsDeployed custom baseline (some r) (by_deployed custom evidence q baseline o)
  unfolding by_deployed has_not_moved
  by_deployed-IsDeployed evidence q baseline r none need there moved h = cc
  by_deployed-IsDeployed evidence q none r (some true) need there moved h = cc
  by_deployed-IsDeployed evidence q (some b) r (some true) need there moved h =
      (b, r, q, refl, refl, need, there, not_true-some (is_ahead custom (text q) (version b)) moved)
  by_deployed-IsDeployed evidence q baseline r (some false) need there moved h = cc

  against_running-IsDeployed :
      (evidence : Evidence) (q : Text) (baseline running : Option Version)
      → evidence.required_version ≡ some q
      → (against_running custom evidence q baseline running).verdict ≡ fix_deployed
      → IsDeployed custom baseline running (against_running custom evidence q baseline running)
  unfolding against_running
  against_running-IsDeployed evidence q baseline none need = λ h. cc
  against_running-IsDeployed evidence q baseline (some r) need =
      elim (Bool-cases (has_not_moved custom baseline q)) [
        | inl stuck ↦ rw stuck (λ h. cc)
        | inr moved ↦ rw moved (
            by_deployed-IsDeployed evidence q baseline r (at_least custom (version r) (text q)) need
              refl moved)
      ]

  by_required-IsDeployed :
      (evidence : Evidence) (baseline running : Option Version) (required : Option Text)
      → (by_required custom evidence baseline running required).verdict ≡ fix_deployed
      → IsDeployed custom baseline running (by_required custom evidence baseline running required)
  unfolding by_required
  by_required-IsDeployed evidence baseline running none h = cc
  by_required-IsDeployed evidence baseline running (some []) h = cc
  by_required-IsDeployed evidence baseline running (some (c ∷ t)) h =
      against_running-IsDeployed (record evidence { required_version = some (c ∷ t) }) (c ∷ t)
        baseline running refl h

module _ (bitbucket : Bitbucket) (custom : Text → Option Text) (settings : CheckSettings) where
  in_repo-IsDeployed :
      (evidence : Evidence) (baseline running : Option Version) (touched : List FrameProbe)
      (repo : Option Repo)
      → (in_repo bitbucket custom settings evidence baseline running touched repo).verdict
        ≡ fix_deployed
      → IsDeployed custom baseline running
          (in_repo bitbucket custom settings evidence baseline running touched repo)
  unfolding in_repo by_scan
  in_repo-IsDeployed evidence baseline running touched none h = cc
  in_repo-IsDeployed evidence baseline running touched (some repo) h =
      let scan = scan_probes bitbucket custom repo settings.max_candidates touched no_scan in
      by_required-IsDeployed custom (record evidence { candidates = scan.candidates }) baseline
        running scan.required h

  by_touched-IsDeployed :
      (evidence : Evidence) (baseline running : Option Version) (touched : List FrameProbe)
      → (by_touched bitbucket custom settings evidence baseline running touched).verdict
        ≡ fix_deployed
      → IsDeployed custom baseline running
          (by_touched bitbucket custom settings evidence baseline running touched)
  unfolding by_touched
  by_touched-IsDeployed evidence baseline running [] = λ h. cc
  by_touched-IsDeployed evidence baseline running (p ∷ ps) =
      elim (Bool-cases (ltb 1 (length (distinct [] (slugs_of (p ∷ ps)))))) [
        | inl several ↦ rw several (λ h. cc)
        | inr one ↦ rw one (in_repo-IsDeployed evidence baseline running (p ∷ ps) p.repo)
      ]

  abbrev Sound : List Operand → List Operand → CodeCheck → Type 0
  Sound baselines runnings c =
      c.verdict ≡ fix_deployed
      → IsDeployed custom (lowest_read custom baselines) (lowest_read custom runnings) c

  by_unread-Sound :
      (evidence : Evidence) (baselines runnings : List Operand) (resolved unread : List FrameProbe)
      → Sound baselines runnings
          (by_unread bitbucket custom settings evidence baselines runnings resolved unread)
  unfolding by_unread
  by_unread-Sound evidence baselines runnings resolved [] h =
      by_touched-IsDeployed
        (read_versions evidence (lowest_read custom baselines) (lowest_read custom runnings))
        (lowest_read custom baselines) (lowest_read custom runnings) (keep has_commits resolved) h
  by_unread-Sound evidence baselines runnings resolved (u ∷ us) h = cc

  by_resolved-Sound :
      (count unmapped : ℕ) (baselines runnings : List Operand) (resolved : List FrameProbe)
      → Sound baselines runnings
          (by_resolved bitbucket custom settings count unmapped baselines runnings resolved)
  unfolding by_resolved
  by_resolved-Sound count unmapped baselines runnings [] h = cc
  by_resolved-Sound count unmapped baselines runnings (site ∷ rest) h =
      by_unread-Sound _ baselines runnings (site ∷ rest) (keep unreadable (site ∷ rest)) h

  by_locations-Sound :
      (failed_at : Option ℕ) (baselines runnings : List Operand) (ls : List FrameLocation)
      → Sound baselines runnings
          (by_locations bitbucket custom settings failed_at baselines runnings ls)
  unfolding by_locations by_probes
  by_locations-Sound failed_at baselines runnings [] h = cc
  by_locations-Sound failed_at baselines runnings (l ∷ ls) h =
      let probes =
        probe_path bitbucket settings.branch_override failed_at
          (take settings.frames_to_check (l ∷ ls)) in
      by_resolved-Sound (length probes) (length (keep (λ p. not (mapped p)) probes)) baselines
        runnings (keep mapped probes) h

-- A replay is cleared as carrying the fix only where the lowest version that runs is at or beyond
-- the version required, that version is ahead of the lowest one that failed, so that the version
-- file did move, and all three are known.
pub evaluate-IsDeployed :
    (bitbucket : Bitbucket) (custom : Text → Option Text) (settings : CheckSettings)
    (failure : Failure) (failed_at : Option ℕ) (baselines runnings : List Operand)
    → (evaluate bitbucket custom settings failure failed_at baselines runnings).verdict
      ≡ fix_deployed
    → IsDeployed custom
        (lowest_read custom baselines)
        (lowest_read custom runnings)
        (evaluate bitbucket custom settings failure failed_at baselines runnings)
unfolding evaluate
evaluate-IsDeployed bitbucket custom settings failure failed_at baselines runnings =
    guarded settings.enabled (is_checked failure.failure_class) bitbucket.configured
  where
    verdict : CodeCheck
    verdict =
        by_locations bitbucket custom settings failed_at baselines runnings
          (locations_of failure.locations)

    guarded :
        (on checked set : Bool)
        → Sound bitbucket custom settings baselines runnings (
            if not on
            then unknown_check switched_off no_evidence
            else if not checked
            then unknown_check class_not_checked no_evidence
            else if not set
            then unknown_check not_configured no_evidence
            else verdict)
    guarded false checked set h = cc
    guarded true false set h = cc
    guarded true true false h = cc
    guarded true true true h =
        by_locations-Sound bitbucket custom settings failed_at baselines runnings
          (locations_of failure.locations) h
