-- ===== src/Dlt/CodeCheck/Probes.antt =====
-- The reads of src/dlt/bitbucket.py that the precheck makes, and `_probe_path`. The reads are a
-- parameter: requests to a server, that answer `none` where they fail.
use agentic_resident_crm.Prelude.{
  ℕ, Bool, false, not, ◌&&◌, List, [], ◌∷◌, ◌++◌, Option, none, some, if◌then◌else◌, ◌==◌, text_eq,
  Text, is_some, take, any,
}
use agentic_resident_crm.Dlt.Versions.{after_last}
use agentic_resident_crm.Dlt.CodeCheck.Frames.{FrameLocation, class_fqcn, source_path_suffix}

pub record Repo : Type 0 where
  pub project : Text
  pub repo : Text
  pub branch : Text
  pub version_file : Text
  pub source_roots : List Text
  pub prefix : Text

abbrev pub slug : Repo → Text
slug r = r.project ++ (b'/' ∷ r.repo)

pub record Commit : Type 0 where
  pub id : Text
  pub subject : Text
  pub timestamp_ms : Option ℕ

-- `Commit.short`
abbrev pub short : Commit → Text
short c = take 10 c.id

pub record Bitbucket : Type 0 where
  pub configured : Bool
  pub default_branch : Text
  pub repo_for : Text → Option Repo
  pub resolve_path : Repo → Text → Option Text
  pub commits_touching : Repo → Text → Option ℕ → Option (List Commit)
  pub changed_paths : Repo → Text → Option (List Text)
  pub version_at : Repo → Text → Option Text

abbrev pub touches : Text → List Text → Bool
touches [] paths = false
touches (c ∷ target) paths = any (λ p. after_last b'/' p == c ∷ target) paths

unfoldable pub touches_version_file : List Text → Text → Bool
unfolding after_last
touches_version_file paths version_file = touches (after_last b'/' version_file) paths

pub data Unmapped : Type 0 where
  not_in_repo_map : Text → Unmapped
  not_found : Text → Text → Unmapped

pub record FrameProbe : Type 0 where
  pub target : Text
  pub repo : Option Repo
  pub path : Option Text
  pub commits : Option (List Commit)
  pub reason : Option Unmapped

abbrev pub mapped : FrameProbe → Bool
mapped p = is_some p.path

abbrev pub unreadable : FrameProbe → Bool
unreadable p = mapped p && not (is_some p.commits)

pub data Resolved : Type 0 where
  found : Repo → Text → Resolved
  unresolved : Unmapped → Resolved

module _ (bitbucket : Bitbucket) (branch_override : Option Text) where
  abbrev pub on_branch : Option Text → Repo → Repo
  on_branch none repo = repo
  on_branch (some override) repo =
      if repo.branch == bitbucket.default_branch then record repo { branch = override } else repo

  abbrev pub resolve_in : FrameLocation → Repo → Option Text → Resolved
  resolve_in location repo none = unresolved (not_found (source_path_suffix location) (slug repo))
  resolve_in location repo (some path) = found repo path

  abbrev pub resolve_for : FrameLocation → Option Repo → Resolved
  resolve_for location none = unresolved (not_in_repo_map (class_fqcn location))
  resolve_for location (some repo) =
      let chosen = on_branch branch_override repo in
      resolve_in location chosen (bitbucket.resolve_path chosen (source_path_suffix location))

  unfoldable pub resolve_frame : FrameLocation → Resolved
  resolve_frame location = resolve_for location (bitbucket.repo_for (class_fqcn location))

  -- `seen`, by the path alone.
  abbrev pub seen_at : Text → List (Text × Option (List Commit)) → Option (Option (List Commit))
  seen_at path [] = none
  seen_at path ((p, commits) ∷ seen) = if p == path then some commits else seen_at path seen

  abbrev pub probe_at : FrameLocation → Repo → Text → Option (List Commit) → FrameProbe
  probe_at location repo path commits = record {
    target = location.target;
    repo = some repo;
    path = some path;
    commits = commits;
    reason = none;
  }

  abbrev pub commits_at :
      Option ℕ
      → Repo
      → Text
      → List (Text × Option (List Commit))
      → Option (Option (List Commit))
      → Option (List Commit) × List (Text × Option (List Commit))
  commits_at failed_at repo path seen (some commits) = (commits, seen)
  commits_at failed_at repo path seen none =
      let commits = bitbucket.commits_touching repo path failed_at in
      (commits, (path, commits) ∷ seen)

  abbrev pub probe_resolved :
      Option ℕ
      → FrameLocation
      → Resolved
      → List (Text × Option (List Commit))
      → FrameProbe × List (Text × Option (List Commit))
  probe_resolved failed_at location (unresolved why) seen = (
    record {
      target = location.target;
      repo = none;
      path = none;
      commits = none;
      reason = some why;
    },
    seen,
  )
  probe_resolved failed_at location (found repo path) seen =
      let (commits, after) = commits_at failed_at repo path seen (seen_at path seen) in
      (probe_at location repo path commits, after)

  -- The loop of `_probe_path`.
  unfoldable pub probe_from :
      Option ℕ → List FrameLocation → List (Text × Option (List Commit)) → List FrameProbe
  unfolding resolve_frame
  probe_from failed_at [] seen = []
  probe_from failed_at (l ∷ ls) seen =
      let (probe, after) = probe_resolved failed_at l (resolve_frame l) seen in
      probe ∷ probe_from failed_at ls after

  unfoldable pub probe_path : Option ℕ → List FrameLocation → List FrameProbe
  unfolding probe_from
  probe_path failed_at locations = probe_from failed_at locations []
