-- ===== src/Dlt/Groups/Examples.antt =====
-- Groups at concrete inputs (src/dlt/group_store.py).
use agentic_resident_crm.Prelude.{ℕ, ◌+◌, ◌≤◌, String, [], ◌∷◌, none, some, length, ◌≡◌, refl}
use agentic_resident_crm.Storage.{answered}
use agentic_resident_crm.Dlt.Groups.Records.{Occurrence, Parts, StoredGroup}
use agentic_resident_crm.Dlt.Groups.Reading.{no_legacy, composed, legacy_of}
use agentic_resident_crm.Dlt.Groups.Writing.{Registration, load_group}
use agentic_resident_crm.Dlt.Groups.Recording.{distinct, cases_of, record_all, calm_files}
use agentic_resident_crm.Dlt.Groups.Counting.{record_all-count}
use agentic_resident_crm.Dlt.Groups.Bounds.{total, composed-IsBounded}

abbrev case : String → ℕ → Registration
case case_id at = record {
  case_id = case_id;
  ref_id = none;
  signature = "NullPointerException";
  failure_class = "C";
  business_code = none;
  corroboration = some "CONFIRMED";
  at = at;
  seq = 0;
}

abbrev occurred : String → ℕ → String × Occurrence
occurred case_id at = (
  case_id,
  record {
    case_id = some case_id;
    ref_id = none;
    corroboration = some "CONFIRMED";
    at = some at;
    seq = none;
  },
)

-- An occurrence that the legacy record lists, and two that it does not, the later one first.
abbrev carried_over : Parts String String
carried_over = record {
  occurrences = occurred "c" 30 ∷ occurred "b" 20 ∷ occurred "a" 10 ∷ [];
  checks = [];
  meta = none;
  finding = none;
  verdict = none;
  legacy = some (record no_legacy {
    members = "a" ∷ "" ∷ [];
    occurrence_count = 5;
    corroboration_history = ("CONFIRMED", 4) ∷ [];
    last_seen = some 12;
  });
}

members_kept : (composed 2 "f1" carried_over).members ≡ "b" ∷ "c" ∷ []
unfolding composed
members_kept = refl

counted_past : (composed 2 "f1" carried_over).occurrence_count ≡ 7
unfolding composed
counted_past = refl

record_all-count_example :
    (g : StoredGroup String String) × (load_group 200 "f1" (
        record_all 200 "f1"
          (case "a" 10 ∷ case "b" 20 ∷ case "a" 30 ∷ [])
          (calm_files 200 "f1" [] []))
      ≡ answered (some g))
    × (g.occurrence_count
        ≡ length (distinct (cases_of (case "a" 10 ∷ case "b" 20 ∷ case "a" 30 ∷ []))))
record_all-count_example =
    record_all-count 200 "f1" (case "a" 10) (case "b" 20 ∷ case "a" 30 ∷ []) refl

composed-IsBounded_example :
    (length (composed 2 "f1" carried_over).members ≤ 2)
    × (total (legacy_of carried_over).corroboration_history
        ≤ total (composed 2 "f1" carried_over).corroboration_history)
    × (total (composed 2 "f1" carried_over).corroboration_history
          + (legacy_of carried_over).occurrence_count
        ≤ total (legacy_of carried_over).corroboration_history
          + (composed 2 "f1" carried_over).occurrence_count)
composed-IsBounded_example = composed-IsBounded 2 "f1" carried_over
