-- ===== src/Dlt/Groups/Records.antt =====
-- What the store holds for a fingerprint, and the group composed from it (src/dlt/group_store.py).
-- A finding and a verdict are documents that this code passes on, `R` and `C`; times are counted in
-- one unit from the epoch.
use agentic_resident_crm.Prelude.{ℕ, String, List, Option, none}

pub record Occurrence : Type 0 where
  pub case_id : Option String
  pub ref_id : Option String
  pub corroboration : Option String
  pub at : Option ℕ
  pub seq : Option ℕ

pub record Check : Type 0 where
  pub verdict : Option String

pub record Meta : Type 0 where
  pub signature : Option String
  pub failure_class : Option String
  pub business_code : Option String
  pub first_seen : Option ℕ

-- `recommendation.json` and `code_check.json`.
pub record Finding (R : Type 0) : Type 0 where
  pub recommendation : Option R
  pub recommendation_state : Option String
  pub by_case_id : Option String
  pub corroboration : Option String

pub record Verdict (C : Type 0) : Type 0 where
  pub code_check : Option C

-- `group.json`, with its members and counts as `_int` and `_counts` read them.
pub record Legacy (R : Type 0) (C : Type 0) : Type 0 where
  pub members : List String
  pub occurrence_count : ℕ
  pub corroboration_history : List (String × ℕ)
  pub code_check_history : List (String × ℕ)
  pub signature : Option String
  pub failure_class : Option String
  pub business_code : Option String
  pub first_seen : Option ℕ
  pub last_seen : Option ℕ
  pub recommendation : Option R
  pub recommendation_state : Option String
  pub code_check : Option C

-- What the store holds for a fingerprint; an occurrence and a check come with their names.
pub record Parts (R : Type 0) (C : Type 0) : Type 0 where
  pub occurrences : List (String × Occurrence)
  pub checks : List (String × Check)
  pub meta : Option Meta
  pub finding : Option (Finding R)
  pub verdict : Option (Verdict C)
  pub legacy : Option (Legacy R C)

pub record StoredGroup (R : Type 0) (C : Type 0) : Type 0 where
  pub fingerprint : String
  pub signature : String
  pub failure_class : String
  pub business_code : Option String
  pub first_seen : Option ℕ
  pub last_seen : Option ℕ
  pub occurrence_count : ℕ
  pub members : List String
  pub recommendation : Option R
  pub recommendation_state : String
  pub recommendation_by_case_id : Option String
  pub recommendation_corroboration : Option String
  pub corroboration_history : List (String × ℕ)
  pub code_check : Option C
  pub code_check_history : List (String × ℕ)

abbrev pub no_meta : Meta
no_meta = record { signature = none; failure_class = none; business_code = none; first_seen = none }
