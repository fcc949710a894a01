-- ===== src/Dlt/CodeCheck/Shipping.antt =====
-- `_first_containing_version` of src/dlt/code_check.py, and the loop of `_evaluate` that finds the
-- version that carries every change of the call path.
use agentic_resident_crm.Prelude.{
  ℕ, Bool, false, List, [], ◌∷◌, ◌++◌, Option, none, some, if◌then◌else◌, text_eq, Text, take,
  contains,
}
use agentic_resident_crm.Dlt.Versions.{Sign, text, compare, is_greater}
use agentic_resident_crm.Dlt.CodeCheck.Probes.{
  Repo, Commit, short, Bitbucket, FrameProbe, touches_version_file,
}

-- How a version was determined.
pub data How : Type 0 where
  changes_unread version_file_unread bumped_by_fix bumps_unread not_cut next_bump_unread : How
  next_bump : Text → How

pub record Candidate : Type 0 where
  pub commit : Text
  pub subject : Text
  pub path : Option Text
  pub timestamp_ms : Option ℕ
  pub first_containing_version : Option Text
  pub resolved_by : How

-- What the loop has collected.
pub record Scan : Type 0 where
  pub candidates : List Candidate
  pub required : Option Text
  pub seen_commits : List Text

abbrev pub oldest_of : Commit → List Commit → Commit
oldest_of c [] = c
oldest_of c (d ∷ ds) = oldest_of d ds

-- `version or None`
abbrev pub or_none : Option Text → Option Text
or_none none = none
or_none (some []) = none
or_none (some (c ∷ t)) = some (c ∷ t)

abbrev pub no_scan : Scan
no_scan = record { candidates = []; required = none; seen_commits = [] }

-- `(versions.compare(version, required) or 0) > 0`
abbrev pub exceeds : Option Sign → Bool
exceeds none = false
exceeds (some s) = is_greater s

abbrev pub candidate : Commit → Option Text → Option Text × How → Candidate
candidate commit path (version, how) = record {
  commit = short commit;
  subject = take 120 commit.subject;
  path = path;
  timestamp_ms = commit.timestamp_ms;
  first_containing_version = or_none version;
  resolved_by = how;
}

abbrev pub commits_of : Option (List Commit) → List Commit
commits_of none = []
commits_of (some cs) = cs

abbrev pub at_fix : Option Text → Option Text × How
at_fix none = (none, version_file_unread)
at_fix (some version) = (some version, bumped_by_fix)

abbrev pub at_bump : Commit → Option Text → Option Text × How
at_bump oldest none = (none, next_bump_unread)
at_bump oldest (some version) = (some version, next_bump (short oldest))

module _ (custom : Text → Option Text) where
  -- `required` after a commit whose version is the first argument: none where it could not be
  -- resolved, empty where it was never cut.
  unfoldable pub raise_required : Option Text → Option Text → Option Text
  raise_required none required = required
  raise_required (some []) none = some []
  raise_required (some []) (some required) = some required
  raise_required (some (c ∷ v)) none = some (c ∷ v)
  raise_required (some (c ∷ v)) (some []) = some (c ∷ v)
  raise_required (some (c ∷ v)) (some (d ∷ required)) =
      if exceeds (compare custom (text (c ∷ v)) (text (d ∷ required)))
      then some (c ∷ v)
      else some (d ∷ required)

module _ (bitbucket : Bitbucket) where
  abbrev pub from_bumps : Repo → Option (List Commit) → Option Text × How
  from_bumps repo none = (none, bumps_unread)
  from_bumps repo (some []) = (some [], not_cut)
  from_bumps repo (some (b ∷ bs)) =
      at_bump (oldest_of b bs) (bitbucket.version_at repo (oldest_of b bs).id)

  abbrev pub from_changes : Repo → Commit → Option (List Text) → Option Text × How
  from_changes repo commit none = (none, changes_unread)
  from_changes repo commit (some changed) =
      if touches_version_file changed repo.version_file
      then at_fix (bitbucket.version_at repo commit.id)
      else from_bumps repo (bitbucket.commits_touching repo repo.version_file commit.timestamp_ms)

  unfoldable pub first_containing_version : Repo → Commit → Option Text × How
  unfolding touches_version_file
  first_containing_version repo commit =
      from_changes repo commit (bitbucket.changed_paths repo commit.id)

  module _ (custom : Text → Option Text) where
    unfoldable pub scan_commit : Repo → Option Text → Commit → Scan → Scan
    unfolding first_containing_version raise_required
    scan_commit repo path commit scan =
        let shipped = first_containing_version repo commit in
        if contains scan.seen_commits commit.id then scan else record {
          candidates = scan.candidates ++ (candidate commit path shipped ∷ []);
          required = raise_required custom shipped.0 scan.required;
          seen_commits = commit.id ∷ scan.seen_commits;
        }

    unfoldable pub scan_commits : Repo → Option Text → List Commit → Scan → Scan
    unfolding scan_commit
    scan_commits repo path [] scan = scan
    scan_commits repo path (c ∷ cs) scan = scan_commits repo path cs (scan_commit repo path c scan)

    unfoldable pub scan_probes : Repo → ℕ → List FrameProbe → Scan → Scan
    unfolding scan_commits
    scan_probes repo max_candidates [] scan = scan
    scan_probes repo max_candidates (p ∷ ps) scan =
        scan_probes repo max_candidates ps
          (scan_commits repo p.path (take max_candidates (commits_of p.commits)) scan)
