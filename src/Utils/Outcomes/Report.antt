-- ===== src/Utils/Outcomes/Report.antt =====
-- `for_service`, `summarise` and `summarise_shadow` of src/utils/outcomes.py.
use agentic_resident_crm.Prelude.{
  text_lt, ℕ, ◌+◌, Bool, true, false, not, ◌&&◌, List, [], ◌∷◌, Option, none, some, if◌then◌else◌,
  ◌==◌, nat_eq, text_eq, Text, codes, contains, starts_with, get_or, keep,
}
use agentic_resident_crm.Utils.Outcomes.Recording.{Outcome, or_text, correct, outcome_verdicts}

unfoldable pub outcome_service : Outcome → Text
outcome_service o = or_text o.service (codes "enu-biometric")

unfoldable pub for_service : Option Text → List Outcome → List Outcome
unfolding outcome_service
for_service none outcomes = outcomes
for_service (some service) outcomes = keep (λ o. outcome_service o == service) outcomes

-- The tuple that a bucket is kept under.
pub record Key : Type 0 where
  pub service : Text
  pub reason_code : Text
  pub enrolment_type : Text
  pub source : Text

abbrev pub key_beq : Key → Key → Bool
key_beq a b =
    a.service == b.service
    && a.reason_code == b.reason_code
    && a.enrolment_type == b.enrolment_type
    && a.source == b.source

-- Tuples are compared at the first place where they differ.
abbrev pub key_lt : Key → Key → Bool
key_lt a b =
    if not (a.service == b.service)
    then text_lt a.service b.service
    else if not (a.reason_code == b.reason_code)
    then text_lt a.reason_code b.reason_code
    else if not (a.enrolment_type == b.enrolment_type)
    then text_lt a.enrolment_type b.enrolment_type
    else text_lt a.source b.source

module _ {C : Type 0} where
  -- `bucket = buckets.setdefault(key, empty)`, changed in place by `f`.
  unfoldable pub update_bucket : Key → (C → C) → C → List (Key × C) → List (Key × C)
  update_bucket key f empty [] = (key, f empty) ∷ []
  update_bucket key f empty ((k, c) ∷ buckets) =
      if key_beq k key then (k, f c) ∷ buckets else (k, c) ∷ update_bucket key f empty buckets

  unfoldable pub insert_bucket : Key × C → List (Key × C) → List (Key × C)
  insert_bucket b [] = b ∷ []
  insert_bucket b (x ∷ xs) = if key_lt x.0 b.0 then x ∷ insert_bucket b xs else b ∷ x ∷ xs

  -- `sorted(buckets.items())`
  unfoldable pub sort_buckets : List (Key × C) → List (Key × C)
  unfolding insert_bucket
  sort_buckets [] = []
  sort_buckets (b ∷ bs) = insert_bucket b (sort_buckets bs)

  abbrev pub sum_by : (C → ℕ) → List (Key × C) → ℕ
  sum_by weight [] = 0
  sum_by weight (b ∷ bs) = weight b.1 + sum_by weight bs

-- The counts of a bucket of `summarise`.
pub record Verdicts : Type 0 where
  pub correct_count : ℕ
  pub incorrect_count : ℕ
  pub partial_count : ℕ

abbrev pub no_verdicts : Verdicts
no_verdicts = record { correct_count = 0; incorrect_count = 0; partial_count = 0 }

-- `sum(counts.values())`
abbrev pub total : Verdicts → ℕ
total c = c.correct_count + c.incorrect_count + c.partial_count

unfoldable pub count_verdict : Text → Verdicts → Verdicts
count_verdict verdict c =
    if correct == verdict
    then record c { correct_count = c.correct_count + 1 }
    else if codes "INCORRECT" == verdict
    then record c { incorrect_count = c.incorrect_count + 1 }
    else if codes "PARTIAL" == verdict
    then record c { partial_count = c.partial_count + 1 }
    else c

-- `runbook:<id>@v<n>` as `runbook`.
unfoldable pub source_kind : Text → Text
source_kind source = if starts_with source (codes "runbook:") then codes "runbook" else source

abbrev pub unnamed : Text
unnamed = codes "unknown"

abbrev pub key_of : Outcome → Text → Key
key_of o source = record {
  service = outcome_service o;
  reason_code = or_text o.reason_code unnamed;
  enrolment_type = or_text o.enrolment_type unnamed;
  source = source;
}

-- The loops, from the buckets that there are.
unfoldable pub tally_from : List (Key × Verdicts) → List Outcome → List (Key × Verdicts)
unfolding update_bucket count_verdict source_kind
tally_from buckets [] = buckets
tally_from buckets (o ∷ os) =
    tally_from
      (update_bucket (key_of o (source_kind (or_text o.resolution_source unnamed)))
        (count_verdict o.verdict) no_verdicts buckets)
      os

pub record Summary (C : Type 0) : Type 0 where
  pub rows : List (Key × C)
  pub summed : ℕ

unfoldable pub summarise : List Outcome → Summary Verdicts
unfolding tally_from sort_buckets
summarise outcomes =
    let rows = sort_buckets (tally_from [] outcomes) in
    record { rows = rows; summed = sum_by total rows }

-- The counts of a bucket of `summarise_shadow`.
pub record Shadowed : Type 0 where
  pub shadowed : ℕ
  pub agreed : ℕ
  pub disagreed : ℕ
  pub would_be_correct : ℕ
  pub agent_correct : ℕ
  pub verdicts : ℕ

abbrev pub none_shadowed : Shadowed
none_shadowed = record {
  shadowed = 0;
  agreed = 0;
  disagreed = 0;
  would_be_correct = 0;
  agent_correct = 0;
  verdicts = 0;
}

abbrev pub one_if : Bool → ℕ
one_if true = 1
one_if false = 0

-- What one outcome adds: whether the runbook agreed, whether the verdict is known, and whether it
-- says that the agents were right.
unfoldable pub count_shadow : Bool → Bool → Bool → Shadowed → Shadowed
count_shadow agreed known right c = record {
  shadowed = c.shadowed + 1;
  agreed = c.agreed + one_if agreed;
  disagreed = c.disagreed + one_if (not agreed);
  would_be_correct = c.would_be_correct + one_if (known && right && agreed);
  agent_correct = c.agent_correct + one_if (known && right);
  verdicts = c.verdicts + one_if known;
}

abbrev pub shadow_counted : Outcome → Shadowed → Shadowed
shadow_counted o =
    count_shadow (get_or o.shadow_agreed false) (contains outcome_verdicts o.verdict)
      (correct == o.verdict)

unfoldable pub shadow_step : Outcome → Text → List (Key × Shadowed) → List (Key × Shadowed)
unfolding update_bucket count_shadow
shadow_step o [] buckets = buckets
shadow_step o (c ∷ runbook) buckets =
    update_bucket (key_of o (c ∷ runbook)) (shadow_counted o) none_shadowed buckets

unfoldable pub shadow_from : List (Key × Shadowed) → List Outcome → List (Key × Shadowed)
unfolding shadow_step
shadow_from buckets [] = buckets
shadow_from buckets (o ∷ os) =
    shadow_from (shadow_step o (get_or o.shadow_runbook_id []) buckets) os

unfoldable pub summarise_shadow : List Outcome → Summary Shadowed
unfolding shadow_from sort_buckets
summarise_shadow outcomes =
    let rows = sort_buckets (shadow_from [] outcomes) in
    record { rows = rows; summed = sum_by (λ c. c.shadowed) rows }
