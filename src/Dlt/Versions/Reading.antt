-- ===== src/Dlt/Versions/Reading.antt =====
-- The two questions asked of a running version, `at_least` and `is_ahead` of src/dlt/versions.py.
use agentic_resident_crm.Prelude.{
  Bool, true, false, not, Option, none, some, ◌≡◌, refl, arith, Text,
}
use agentic_resident_crm.Dlt.Versions.Parse.{Version}
use agentic_resident_crm.Dlt.Versions.Compare.{
  Operand, at_least, is_ahead, resolve, compare, compare_versions, compare_builds,
  compare_snapshots, equal, map₂, to_bool, is_greater, not_less,
}
use agentic_resident_crm.Dlt.Versions.Order.{compare_versions-flip, compare_versions_lem, lex}

abbrev pub negated : Option Bool → Option Bool
negated none = none
negated (some b) = some (not b)

ahead_flip :
    (a b : Option Version)
    → to_bool is_greater (map₂ compare_versions a b)
      ≡ negated (to_bool not_less (map₂ compare_versions b a))
ahead_flip none none = refl
ahead_flip none (some b) = refl
ahead_flip (some a) none = refl
ahead_flip (some a) (some b) = rw (compare_versions-flip a b) (ground arith)

-- A candidate is strictly ahead of a baseline exactly where the baseline is not at least the
-- candidate, and the two questions are unanswered together.
pub is_ahead-at_least :
    (custom : Text → Option Text) (candidate baseline : Operand)
    → is_ahead custom candidate baseline ≡ negated (at_least custom baseline candidate)
unfolding is_ahead at_least
is_ahead-at_least custom candidate baseline =
    ahead_flip (resolve custom candidate) (resolve custom baseline)

-- A candidate of the baseline's core and snapshot mark is at least a baseline that carries no build
-- counter and not strictly ahead of it, whatever counter it carries itself.
pub is_ahead_uncounted :
    (custom : Text → Option Text) (candidate baseline : Operand) (a b : Version)
    → resolve custom candidate ≡ some a
    → resolve custom baseline ≡ some b
    → lex a.core b.core ≡ equal
    → a.snapshot ≡ b.snapshot
    → b.build ≡ none
    → (is_ahead custom candidate baseline ≡ some false)
      × (at_least custom candidate baseline ≡ some true)
unfolding is_ahead at_least compare_builds compare_snapshots
is_ahead_uncounted custom candidate baseline a b ea eb cores snaps none_built =
    rw (ea, eb, is_ahead, compare) (ground (arith, compare_versions_lem a b))
