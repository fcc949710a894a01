-- ===== src/Dlt/CodeCheck/Untouched.antt =====
-- What a negative verdict of the replay precheck rests on (src/dlt/code_check.py).
use agentic_resident_crm.Prelude.{
  ℕ, Bool, true, false, not, List, [], ◌∷◌, Option, none, some, if◌then◌else◌, ltb, Text, All, any,
  ◌≡◌, ◌≢◌, refl, Bool-cases, inl, inr, take, length, keep,
}
use agentic_resident_crm.Dlt.Findings.{no_change}
use agentic_resident_crm.Dlt.Versions.{Version, Operand, text, version, at_least}
use agentic_resident_crm.Dlt.CodeCheck.Frames.{FrameLocation, locations_of}
use agentic_resident_crm.Dlt.CodeCheck.Probes.{
  Bitbucket, Repo, Commit, FrameProbe, mapped, unreadable, probe_path,
}
use agentic_resident_crm.Dlt.CodeCheck.Asked.{IsUntouched, probed-IsUntouched}
use agentic_resident_crm.Dlt.CodeCheck.Shipping.{scan_probes, no_scan}
use agentic_resident_crm.Dlt.CodeCheck.Evaluation.{
  CheckSettings, Evidence, Failure, unknown_check, is_checked, lowest_read, has_not_moved,
  by_deployed, against_running, by_required, by_scan, in_repo, by_touched, read_versions, by_unread,
  by_resolved, by_probes, by_locations, evaluate, has_commits, distinct, slugs_of, switched_off,
  class_not_checked, not_configured, no_evidence,
}

module _ (custom : Text → Option Text) where
  by_deployed-changed :
      (evidence : Evidence) (q : Text) (baseline : Option Version) (o : Option Bool)
      → (by_deployed custom evidence q baseline o).verdict ≢ no_change
  unfolding by_deployed
  by_deployed-changed evidence q baseline none = λ h. cc
  by_deployed-changed evidence q none (some true) = λ h. cc
  by_deployed-changed evidence q (some b) (some true) = λ h. cc
  by_deployed-changed evidence q baseline (some false) = λ h. cc

  against_running-changed :
      (evidence : Evidence) (q : Text) (baseline running : Option Version)
      → (against_running custom evidence q baseline running).verdict ≢ no_change
  unfolding against_running
  against_running-changed evidence q baseline none = λ h. cc
  against_running-changed evidence q baseline (some r) =
      elim (Bool-cases (has_not_moved custom baseline q)) [
        | inl stuck ↦ rw stuck (λ h. cc)
        | inr moved ↦
            rw moved
              (by_deployed-changed evidence q baseline (at_least custom (version r) (text q)))
      ]

  by_required-changed :
      (evidence : Evidence) (baseline running : Option Version) (required : Option Text)
      → (by_required custom evidence baseline running required).verdict ≢ no_change
  unfolding by_required
  by_required-changed evidence baseline running none = λ h. cc
  by_required-changed evidence baseline running (some []) = λ h. cc
  by_required-changed evidence baseline running (some (c ∷ t)) =
      against_running-changed (record evidence { required_version = some (c ∷ t) }) (c ∷ t) baseline
        running

module _ (bitbucket : Bitbucket) (custom : Text → Option Text) (settings : CheckSettings) where
  in_repo-changed :
      (evidence : Evidence) (baseline running : Option Version) (touched : List FrameProbe)
      (repo : Option Repo)
      → (in_repo bitbucket custom settings evidence baseline running touched repo).verdict
        ≢ no_change
  unfolding in_repo by_scan
  in_repo-changed evidence baseline running touched none = λ h. cc
  in_repo-changed evidence baseline running touched (some repo) =
      let scan = scan_probes bitbucket custom repo settings.max_candidates touched no_scan in
      by_required-changed custom (record evidence { candidates = scan.candidates }) baseline running
        scan.required

  by_touched-untouched :
      (evidence : Evidence) (baseline running : Option Version) (touched : List FrameProbe)
      → (by_touched bitbucket custom settings evidence baseline running touched).verdict ≡ no_change
      → touched ≡ []
  unfolding by_touched
  by_touched-untouched evidence baseline running [] = λ h. refl
  by_touched-untouched evidence baseline running (p ∷ ps) =
      elim (Bool-cases (ltb 1 (length (distinct [] (slugs_of (p ∷ ps)))))) [
        | inl several ↦ rw several (λ h. cc)
        | inr one ↦
            rw one (λ h. elim (in_repo-changed evidence baseline running (p ∷ ps) p.repo h) [ ])
      ]

  by_unread-untouched :
      (evidence : Evidence) (baselines runnings : List Operand) (resolved unread : List FrameProbe)
      → (by_unread bitbucket custom settings evidence baselines runnings resolved unread).verdict
        ≡ no_change
      → (unread ≡ []) × (keep has_commits resolved ≡ [])
  unfolding by_unread
  by_unread-untouched evidence baselines runnings resolved [] h = (
    refl,
    by_touched-untouched
        (read_versions evidence (lowest_read custom baselines) (lowest_read custom runnings))
        (lowest_read custom baselines) (lowest_read custom runnings) (keep has_commits resolved) h,
  )
  by_unread-untouched evidence baselines runnings resolved (u ∷ us) h = cc

  by_resolved-untouched :
      (count unmapped : ℕ) (baselines runnings : List Operand) (resolved : List FrameProbe)
      → (by_resolved bitbucket custom settings count unmapped baselines runnings resolved).verdict
        ≡ no_change
      → (resolved ≢ []) × (keep unreadable resolved ≡ []) × (keep has_commits resolved ≡ [])
  unfolding by_resolved
  by_resolved-untouched count unmapped baselines runnings [] h = cc
  by_resolved-untouched count unmapped baselines runnings (site ∷ rest) h =
      let (read, bare) =
        by_unread-untouched _ baselines runnings (site ∷ rest) (keep unreadable (site ∷ rest)) h in
      (λ e. cc, read, bare)

read-untouched :
    (p : FrameProbe) (o : Option Text) (cs : Option (List Commit))
    → p.path ≡ o
    → p.commits ≡ cs
    → unreadable p ≡ false
    → has_commits p ≡ false
    → mapped p ≡ true
    → p.commits ≡ some []
read-untouched p none cs e f read bare there = cc
read-untouched p (some t) none e f read bare there = cc
read-untouched p (some t) (some []) e f read bare there = f
read-untouched p (some t) (some (c ∷ cs)) e f read bare there = cc

kept-bare :
    (q : FrameProbe → Bool) (probes : List FrameProbe)
    → keep q (keep mapped probes) ≡ []
    → All (λ p. mapped p ≡ true → q p ≡ false) probes
kept-bare q [] = λ h. tt
kept-bare q (p ∷ ps) = elim (Bool-cases (mapped p)) [
  | inr not_there ↦ rw not_there (λ h. (λ e. cc, kept-bare q ps h))
  | inl there ↦ rw there (elim (Bool-cases (q p)) [
    | inl passes ↦ rw passes (λ h. cc)
    | inr fails ↦ rw fails (λ h. (λ e. refl, kept-bare q ps h))
  ])
]

any-mapped : (probes : List FrameProbe) → keep mapped probes ≢ [] → any mapped probes ≡ true
any-mapped [] h = elim (h refl) [ ]
any-mapped (p ∷ ps) h = elim (Bool-cases (mapped p)) [
  | inl there ↦ rw there refl
  | inr not_there ↦ rw not_there (any-mapped ps (λ e. h (rw not_there e)))
]

All-untouched :
    (probes : List FrameProbe)
    → All (λ p. mapped p ≡ true → unreadable p ≡ false) probes
    → All (λ p. mapped p ≡ true → has_commits p ≡ false) probes
    → All (λ p. mapped p ≡ true → p.commits ≡ some []) probes
All-untouched [] read bare = tt
All-untouched (p ∷ ps) (r, read) (b, bare) =
    (λ h. read-untouched p p.path p.commits refl refl (r h) (b h) h, All-untouched ps read bare)

-- A replay is ruled out as pointless only where some frame of the failure's call path stands in a
-- known file, and for each frame that does a repository in which some frame has a file of its path,
-- asked for the commits to that file since the failure, answers that there are none. The frames
-- are those within the configured depth.
pub evaluate-IsUntouched :
    (bitbucket : Bitbucket) (custom : Text → Option Text) (settings : CheckSettings)
    (failure : Failure) (failed_at : Option ℕ) (baselines runnings : List Operand)
    → (evaluate bitbucket custom settings failure failed_at baselines runnings).verdict ≡ no_change
    → IsUntouched bitbucket settings.branch_override failed_at
        (take settings.frames_to_check (locations_of failure.locations))
unfolding evaluate by_locations by_probes
evaluate-IsUntouched bitbucket custom settings failure failed_at baselines runnings =
    guarded settings.enabled (is_checked failure.failure_class) bitbucket.configured
      (locations_of failure.locations)
  where
    probed : List FrameLocation → List FrameProbe
    probed ls =
        probe_path bitbucket settings.branch_override failed_at (take settings.frames_to_check ls)

    by_probes-IsUntouched :
        (ls : List FrameLocation)
        → (by_probes bitbucket custom settings baselines runnings (probed ls)).verdict ≡ no_change
        → IsUntouched bitbucket settings.branch_override failed_at
            (take settings.frames_to_check ls)
    by_probes-IsUntouched ls h =
        let (some_there, read, bare) =
          by_resolved-untouched bitbucket custom settings _ _ baselines runnings
            (keep mapped (probed ls)) h in
        probed-IsUntouched bitbucket settings.branch_override failed_at
          (take settings.frames_to_check ls) (any-mapped (probed ls) some_there)
          (All-untouched (probed ls) (kept-bare unreadable (probed ls) read)
            (kept-bare has_commits (probed ls) bare))

    guarded :
        (on checked set : Bool) (ls : List FrameLocation)
        → (if not on
            then unknown_check switched_off no_evidence
            else if not checked
            then unknown_check class_not_checked no_evidence
            else if not set
            then unknown_check not_configured no_evidence
            else by_locations bitbucket custom settings failed_at baselines runnings ls).verdict
          ≡ no_change
        → IsUntouched bitbucket settings.branch_override failed_at
            (take settings.frames_to_check ls)
    guarded false checked set ls h = cc
    guarded true false set ls h = cc
    guarded true true false ls h = cc
    guarded true true true [] h = cc
    guarded true true true (l ∷ ls) h = by_probes-IsUntouched (l ∷ ls) h
