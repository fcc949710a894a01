-- ===== src/Dlt/CodeCheck/Examples.antt =====
-- The replay precheck of src/dlt/code_check.py at a sample repository.
use agentic_resident_crm.Prelude.{
  true, if◌then◌else◌, ◌==◌, starts_with, Text, codes, List, [], ◌∷◌, Option, none, some, text_eq,
  take, ◌≡◌, refl,
}
use agentic_resident_crm.Dlt.Findings.{code_defect, fix_deployed, no_change}
use agentic_resident_crm.Dlt.Versions.{Operand, text, is_ahead, at_least, lowest}
use agentic_resident_crm.Dlt.CodeCheck.Frames.{locations_of, class_fqcn}
use agentic_resident_crm.Dlt.CodeCheck.Probes.{Repo, Commit, Bitbucket, FrameProbe}
use agentic_resident_crm.Dlt.CodeCheck.Shipping.{scan_probes, no_scan}
use agentic_resident_crm.Dlt.CodeCheck.Evaluation.{CheckSettings, Failure, evaluate, lowest_read}
use agentic_resident_crm.Dlt.CodeCheck.Deployed.{IsDeployed, evaluate-IsDeployed}
use agentic_resident_crm.Dlt.CodeCheck.Asked.{IsUntouched}
use agentic_resident_crm.Dlt.CodeCheck.Untouched.{evaluate-IsUntouched}
use agentic_resident_crm.Dlt.CodeCheck.Highest.{AllCovered, scan_probes-covered}

abbrev repo : Repo
repo = record {
  project = codes "ENU";
  repo = codes "biometric";
  branch = codes "master";
  version_file = codes "pom.xml";
  source_roots = [];
  prefix = codes "com.foo";
}

abbrev commit : Commit
commit = record { id = codes "abc"; subject = codes "Fix"; timestamp_ms = some 50 }

-- One repository, where `commits` have touched every file, each of them the version file too.
abbrev server : List Commit → Bitbucket
server commits = record {
  configured = true;
  default_branch = codes "master";
  repo_for = λ fqcn. some repo;
  resolve_path = λ r suffix. some suffix;
  commits_touching = λ r path from. some commits;
  changed_paths = λ r id. some (codes "pom.xml" ∷ []);
  version_at = λ r id. some (codes "1.0.3");
}

abbrev settings : CheckSettings
settings = record {
  enabled = true;
  frames_to_check = 5;
  max_candidates = 10;
  branch_override = none;
}

abbrev failure : Failure
failure = record {
  failure_class = some code_defect;
  locations =
      (record {
        target = some (codes "com.foo.Bar.run");
        file = some (codes "Bar.java");
        line = none;
      })
      ∷ [];
}

abbrev plain : Text → Option Text
plain t = none

abbrev failed_on : List Operand
failed_on = text (codes "1.0.2") ∷ []

abbrev runs_on : List Operand
runs_on = text (codes "1.0.4") ∷ text (codes "1.0.3") ∷ []

evaluate-IsDeployed_example :
    IsDeployed plain
      (lowest_read plain failed_on)
      (lowest_read plain runs_on)
      (evaluate (server (commit ∷ [])) plain settings failure (some 10) failed_on runs_on)
unfolding evaluate is_ahead at_least
evaluate-IsDeployed_example =
    evaluate-IsDeployed (server (commit ∷ [])) plain settings failure (some 10) failed_on runs_on
      deployed
  where
    deployed :
        (evaluate (server (commit ∷ [])) plain settings failure (some 10) failed_on runs_on).verdict
        ≡ fix_deployed
    deployed = refl

evaluate-IsUntouched_example :
    IsUntouched (server []) none (some 10) (take 5 (locations_of failure.locations))
unfolding evaluate lowest
evaluate-IsUntouched_example =
    evaluate-IsUntouched (server []) plain settings failure (some 10) failed_on runs_on untouched
  where
    untouched :
        (evaluate (server []) plain settings failure (some 10) failed_on runs_on).verdict
        ≡ no_change
    untouched = refl

abbrev other_repo : Repo
other_repo = record repo { repo = codes "gateway"; prefix = codes "org.bar" }

-- Two repositories with a file of one path: nothing has touched it in the first, and a commit has in
-- the second.
abbrev two_repositories : Bitbucket
two_repositories = record (server []) {
  repo_for = λ fqcn. some (if starts_with fqcn (codes "com") then repo else other_repo);
  resolve_path = λ r suffix. some (codes "Bar.java");
  commits_touching = λ r path from. some (if r.repo == repo.repo then [] else commit ∷ []);
}

abbrev two_frames : Failure
two_frames = record {
  failure_class = some code_defect;
  locations =
      (record {
        target = some (codes "com.foo.Bar.run");
        file = some (codes "Bar.java");
        line = none;
      })
      ∷ (record {
        target = some (codes "org.bar.Bar.run");
        file = some (codes "Bar.java");
        line = none;
      })
      ∷ [];
}

-- The answer of the first repository stands for the second, whose commit goes unread.
second_unread :
    (evaluate two_repositories plain settings two_frames (some 10) failed_on runs_on).verdict
    ≡ no_change
unfolding evaluate lowest class_fqcn
second_unread = refl

abbrev probe : FrameProbe
probe = record {
  target = [];
  repo = some repo;
  path = some (codes "Bar.java");
  commits = some (commit ∷ []);
  reason = none;
}

scan_probes-covered_example :
    AllCovered plain (scan_probes (server []) plain repo 10 (probe ∷ []) no_scan)
scan_probes-covered_example = scan_probes-covered (server []) plain repo 10 (probe ∷ [])
