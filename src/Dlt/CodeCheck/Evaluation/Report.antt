-- ===== src/Dlt/CodeCheck/Evaluation/Report.antt =====
-- What `_evaluate` of src/dlt/code_check.py reads and reports.
use agentic_resident_crm.Prelude.{
  ℕ, Bool, true, false, List, [], ◌∷◌, ◌++◌, Option, none, some, if◌then◌else◌, text_eq, Text,
  contains,
}
use agentic_resident_crm.Dlt.Findings.{FailureClass, business, code_defect, CheckVerdict, undecided}
use agentic_resident_crm.Dlt.Versions.{Version, Operand, lowest}
use agentic_resident_crm.Dlt.CodeCheck.Frames.{LocationEntry}
use agentic_resident_crm.Dlt.CodeCheck.Probes.{Repo, slug, Commit, FrameProbe}
use agentic_resident_crm.Dlt.CodeCheck.Shipping.{Candidate}

pub record CheckSettings : Type 0 where
  pub enabled : Bool
  pub frames_to_check : ℕ
  pub max_candidates : ℕ
  pub branch_override : Option Text

-- The sentence of a verdict, with what it quotes.
pub data Why : Type 0 where
  switched_off class_not_checked not_configured no_location no_frame_mapped : Why
  unread_files : ℕ → ℕ → Why
  untouched : ℕ → ℕ → Why
  several_repositories : ℕ → Why
  raised : Why
  not_cut_yet no_version_resolved : ℕ → Why
  running_unread version_not_moved not_ordered no_baseline running_behind running_carries :
      Text → Why

-- The keyword arguments collected in `base`.
pub record Evidence : Type 0 where
  pub frames_examined : ℕ
  pub frames_resolved : ℕ
  pub frames_unmapped : ℕ
  pub repo : Option Text
  pub path : Option Text
  pub branch : Option Text
  pub paths_checked : List Text
  pub baseline_version : Option Version
  pub running_version : Option Version
  pub required_version : Option Text
  pub candidates : List Candidate

pub record CodeCheck : Type 0 where
  pub verdict : CheckVerdict
  pub reason : Why
  pub evidence : Evidence

pub record Failure : Type 0 where
  pub failure_class : Option FailureClass
  pub locations : List LocationEntry

abbrev pub no_evidence : Evidence
no_evidence = record {
  frames_examined = 0;
  frames_resolved = 0;
  frames_unmapped = 0;
  repo = none;
  path = none;
  branch = none;
  paths_checked = [];
  baseline_version = none;
  running_version = none;
  required_version = none;
  candidates = [];
}

abbrev pub check : CheckVerdict → Why → Evidence → CodeCheck
check verdict reason evidence = record { verdict = verdict; reason = reason; evidence = evidence }

-- `_unknown`
abbrev pub unknown_check : Why → Evidence → CodeCheck
unknown_check reason evidence = check undecided reason evidence

-- `CHECKED_CLASSES`
abbrev pub is_checked : Option FailureClass → Bool
is_checked (some business) = true
is_checked (some code_defect) = true
is_checked _ = false

-- The distinct ones, each at its first place, after those in `seen`.
unfoldable pub distinct : List Text → List Text → List Text
distinct seen [] = []
distinct seen (t ∷ ts) =
    let again = distinct seen ts in
    let anew = distinct (t ∷ seen) ts in if contains seen t then again else t ∷ anew

abbrev pub some_of : Option Text → List Text
some_of none = []
some_of (some t) = t ∷ []

abbrev pub slug_of : Option Repo → List Text
slug_of none = []
slug_of (some r) = slug r ∷ []

abbrev pub paths_of : List FrameProbe → List Text
paths_of [] = []
paths_of (p ∷ ps) = some_of p.path ++ paths_of ps

abbrev pub slugs_of : List FrameProbe → List Text
slugs_of [] = []
slugs_of (p ∷ ps) = slug_of p.repo ++ slugs_of ps

abbrev pub has_commits : FrameProbe → Bool
has_commits p = touched p.commits
  where
    touched : Option (List Commit) → Bool
    touched none = false
    touched (some []) = false
    touched (some (c ∷ cs)) = true

-- `versions.lowest(values) if values else None`
abbrev pub lowest_read : (Text → Option Text) → List Operand → Option Version
lowest_read custom [] = none
lowest_read custom (x ∷ xs) = lowest custom (x ∷ xs)

abbrev pub not_true : Option Bool → Bool
not_true (some true) = false
not_true _ = true

abbrev pub read_versions : Evidence → Option Version → Option Version → Evidence
read_versions evidence baseline running = record evidence {
  baseline_version = baseline;
  running_version = running;
}

abbrev pub branch_of : Option Repo → Option Text
branch_of none = none
branch_of (some r) = some r.branch

abbrev pub first_slug : Option Repo → Option Text
first_slug none = none
first_slug (some r) = some (slug r)
