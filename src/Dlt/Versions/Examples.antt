-- ===== src/Dlt/Versions/Examples.antt =====
-- The version module on the texts that src/dlt/versions.py names, and its theorems at them.
use agentic_resident_crm.Prelude.{
  ℕ, Bool, false, List, [], ◌∷◌, ◌++◌, Option, none, some, ◌≡◌, refl, Text, codes, String,
}
use agentic_resident_crm.Dlt.Versions.Image.{version_of}
use agentic_resident_crm.Dlt.Versions.Parse.{Version, parse}
use agentic_resident_crm.Dlt.Versions.Compare.{less, equal, greater, Operand, text, compare, lowest}
use agentic_resident_crm.Dlt.Versions.Lowest.{IsLowest, lowest-IsLowest}
use agentic_resident_crm.Dlt.Versions.Tags.{version_of-tag}

-- No `DLT_VERSION_PATTERN`.
abbrev plain : Text → Option Text
plain t = none

abbrev read : String → Operand
read s = text (codes s)

abbrev v : List ℕ → Bool → Option ℕ → Version
v core snapshot build = record {
  raw = [];
  core = core;
  qualifier = [];
  snapshot = snapshot;
  build = build;
}

slashed :
    version_of (codes "host:5000/ankalan/enu-biometric/1.0.0-release.4") ≡ codes "1.0.0-release.4"
unfolding version_of
slashed = refl

release_42 :
    parse plain (some (codes " v1.0.0-release.42 "))
    ≡ some (record {
      raw = codes "v1.0.0-release.42";
      core = 1 ∷ 0 ∷ 0 ∷ [];
      qualifier = codes "release.42";
      snapshot = false;
      build = some 42;
    })
unfolding parse
release_42 = refl

latest : parse plain (some (codes "latest")) ≡ none
unfolding parse
latest = refl

trap_7 : compare plain (read "1.0.10") (read "1.0.9") ≡ some greater
unfolding compare
trap_7 = refl

padding : compare plain (read "1.0") (read "1.0.0") ≡ some equal
unfolding compare
padding = refl

snapshot_first : compare plain (read "1.0.1-SNAPSHOT") (read "1.0.1") ≡ some less
unfolding compare
snapshot_first = refl

abbrev rollout : List Operand
rollout = read "1.0.0-release.42" ∷ read "1.0.0-release.9" ∷ []

lowest-IsLowest_example : IsLowest plain rollout (record {
  raw = codes "1.0.0-release.9";
  core = 1 ∷ 0 ∷ 0 ∷ [];
  qualifier = codes "release.9";
  snapshot = false;
  build = some 9;
})
unfolding lowest
lowest-IsLowest_example =
    lowest-IsLowest plain rollout
      (record {
        raw = codes "1.0.0-release.9";
        core = 1 ∷ 0 ∷ 0 ∷ [];
        qualifier = codes "release.9";
        snapshot = false;
        build = some 9;
      })
      refl

version_of-tag_example :
    version_of (codes "host:5000/ns" ++ codes "/app" ++ codes ":1.0.0" ++ codes "@sha256:ab")
    ≡ codes "1.0.0"
version_of-tag_example =
    version_of-tag (codes "host:5000/ns") (codes "app") (codes "1.0.0") (codes "sha256:ab") refl
      refl refl refl refl refl refl
