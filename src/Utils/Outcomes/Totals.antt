-- ===== src/Utils/Outcomes/Totals.antt =====
-- What the two reports of outcomes add up to (src/utils/outcomes.py).
use agentic_resident_crm.Prelude.{
  ℕ, ◌+◌, ◌≤◌, Bool, true, false, List, [], ◌∷◌, if◌then◌else◌, ◌==◌, nat_eq, text_eq, Text, codes,
  contains, get_or, keep, length, All, ◌≡◌, refl, ◌∙◌, arith, Bool-cases, inl, inr,
}
use agentic_resident_crm.Utils.Outcomes.Recording.{Outcome, correct, outcome_verdicts, or_text}
use agentic_resident_crm.Utils.Outcomes.Report.{
  Key, key_beq, key_lt, key_of, update_bucket, insert_bucket, sort_buckets, sum_by, Verdicts,
  no_verdicts, total, count_verdict, source_kind, unnamed, tally_from, summarise, Shadowed,
  none_shadowed, one_if, count_shadow, shadow_counted, shadow_step, shadow_from, summarise_shadow,
}

module _ {C : Type 0} (weight : C → ℕ) where
  sum_by-update :
      (key : Key) (f : C → C) (empty : C) (n : ℕ) (buckets : List (Key × C))
      → weight empty ≡ 0
      → ((c : C) → weight (f c) ≡ weight c + n)
      → sum_by weight (update_bucket key f empty buckets) ≡ sum_by weight buckets + n
  unfolding update_bucket
  sum_by-update key f empty n [] zero grows = omega (arith, grows empty)
  sum_by-update key f empty n ((k, c) ∷ buckets) zero grows =
      ground (arith, grows c, sum_by-update key f empty n buckets zero grows)

  sum_by-insert :
      (b : Key × C) (buckets : List (Key × C))
      → sum_by weight (insert_bucket b buckets) ≡ weight b.1 + sum_by weight buckets
  unfolding insert_bucket
  sum_by-insert b [] = refl
  sum_by-insert b (x ∷ xs) = ground (arith, sum_by-insert b xs)

  sum_by-sort :
      (buckets : List (Key × C)) → sum_by weight (sort_buckets buckets) ≡ sum_by weight buckets
  unfolding sort_buckets
  sum_by-sort [] = refl
  sum_by-sort (b ∷ bs) = omega (arith, sum_by-insert b (sort_buckets bs), sum_by-sort bs)

module _ {C : Type 0} (P : C → Type 0) where
  abbrev pub AllRows : List (Key × C) → Type 0
  AllRows rows = All (λ r. P r.1) rows

  update-AllRows :
      (key : Key) (f : C → C) (empty : C) (buckets : List (Key × C))
      → P empty
      → ((c : C) → P c → P (f c))
      → AllRows buckets
      → AllRows (update_bucket key f empty buckets)
  unfolding update_bucket
  update-AllRows key f empty [] start step all = (step empty start, tt)
  update-AllRows key f empty ((k, c) ∷ buckets) start step (h, hs) =
      elim (Bool-cases (key_beq k key)) [
        | inl found ↦ rw found (step c h, hs)
        | inr other ↦ rw other (h, update-AllRows key f empty buckets start step hs)
      ]

  insert-AllRows :
      (b : Key × C) (buckets : List (Key × C))
      → P b.1
      → AllRows buckets
      → AllRows (insert_bucket b buckets)
  unfolding insert_bucket
  insert-AllRows b [] p all = (p, tt)
  insert-AllRows b (x ∷ xs) p (h, hs) = elim (Bool-cases (key_lt x.0 b.0)) [
    | inl later ↦ rw later (h, insert-AllRows b xs p hs)
    | inr here ↦ rw here (p, (h, hs))
  ]

  sort-AllRows : (buckets : List (Key × C)) → AllRows buckets → AllRows (sort_buckets buckets)
  unfolding sort_buckets
  sort-AllRows [] all = tt
  sort-AllRows (b ∷ bs) (h, hs) = insert-AllRows b (sort_buckets bs) h (sort-AllRows bs hs)

count_verdict-total :
    (verdict : Text) (c : Verdicts)
    → total (count_verdict verdict c) ≡ total c + one_if (contains outcome_verdicts verdict)
unfolding count_verdict
count_verdict-total verdict c = elim (Bool-cases (correct == verdict)) [
  | inl right ↦ rw right (omega arith)
  | inr not_right ↦ rw not_right (elim (Bool-cases (codes "INCORRECT" == verdict)) [
    | inl wrong ↦ rw wrong (omega arith)
    | inr not_wrong ↦ rw not_wrong (elim (Bool-cases (codes "PARTIAL" == verdict)) [
      | inl partly ↦ rw partly (omega arith)
      | inr unknown ↦ rw unknown (omega arith)
    ])
  ])
]

one_more :
    {A : Type 0} (b : Bool) (n : ℕ) (o : A) (os : List A)
    → n + one_if b + length os ≡ n + length (if b then o ∷ os else os)
one_more true n o os = omega arith
one_more false n o os = omega arith

tally_from-total :
    (buckets : List (Key × Verdicts)) (outcomes : List Outcome)
    → sum_by total (tally_from buckets outcomes)
      ≡ sum_by total buckets + length (keep (λ o. contains outcome_verdicts o.verdict) outcomes)
unfolding tally_from
tally_from-total buckets [] = omega arith
tally_from-total buckets (o ∷ os) =
    tally_from-total
      (update_bucket (key_of o (source_kind (or_text o.resolution_source unnamed)))
        (count_verdict o.verdict) no_verdicts buckets)
      os
    ∙ rw
        (sum_by-update total (key_of o (source_kind (or_text o.resolution_source unnamed)))
          (count_verdict o.verdict) no_verdicts (one_if (contains outcome_verdicts o.verdict))
          buckets refl (count_verdict-total o.verdict))
        (one_more (contains outcome_verdicts o.verdict) (sum_by total buckets) o
          (keep (λ o. contains outcome_verdicts o.verdict) os))

-- Every outcome with a known verdict is counted once: the total of the accuracy report is their
-- number, whatever service, reason code, enrolment type or source they are about.
pub summarise-total :
    (outcomes : List Outcome)
    → (summarise outcomes).summed
      ≡ length (keep (λ o. contains outcome_verdicts o.verdict) outcomes)
unfolding summarise
summarise-total outcomes =
    omega (arith, sum_by-sort total (tally_from [] outcomes), tally_from-total [] outcomes)

-- Whether an outcome says which runbook was shadowed.
abbrev pub is_named : Text → Bool
is_named [] = false
is_named (c ∷ t) = true

abbrev pub names_runbook : Outcome → Bool
names_runbook o = is_named (get_or o.shadow_runbook_id [])

-- The counts of a runbook hang together: it agreed or not each time, each verdict is on one of
-- the times, and its own wins are among its agreements and among the agents' wins.
abbrev pub IsConsistent : Shadowed → Type 0
IsConsistent c =
    (c.agreed + c.disagreed ≡ c.shadowed)
    × (c.verdicts ≤ c.shadowed)
    × (c.agent_correct ≤ c.verdicts)
    × (c.would_be_correct ≤ c.agent_correct)
    × (c.would_be_correct ≤ c.agreed)

count_shadow-IsConsistent :
    (agreed known right : Bool) (c : Shadowed)
    → IsConsistent c
    → IsConsistent (count_shadow agreed known right c)
unfolding count_shadow
count_shadow-IsConsistent agreed known right c (a, b, d, e, f) =
    (ground arith, ground arith, ground arith, ground arith, ground arith)

shadow_step-total :
    (o : Outcome) (runbook : Text) (buckets : List (Key × Shadowed))
    → sum_by (λ c. c.shadowed) (shadow_step o runbook buckets)
      ≡ sum_by (λ c. c.shadowed) buckets + one_if (is_named runbook)
unfolding shadow_step count_shadow
shadow_step-total o [] buckets = omega arith
shadow_step-total o (c ∷ runbook) buckets =
    sum_by-update (λ c. c.shadowed) (key_of o (c ∷ runbook)) (shadow_counted o) none_shadowed 1
      buckets refl (λ c. refl)

shadow_from-total :
    (buckets : List (Key × Shadowed)) (outcomes : List Outcome)
    → sum_by (λ c. c.shadowed) (shadow_from buckets outcomes)
      ≡ sum_by (λ c. c.shadowed) buckets + length (keep names_runbook outcomes)
unfolding shadow_from
shadow_from-total buckets [] = omega arith
shadow_from-total buckets (o ∷ os) =
    shadow_from-total (shadow_step o (get_or o.shadow_runbook_id []) buckets) os
    ∙ rw (shadow_step-total o (get_or o.shadow_runbook_id []) buckets)
        (one_more (names_runbook o) (sum_by (λ c. c.shadowed) buckets) o (keep names_runbook os))

shadow_step-AllRows :
    (o : Outcome) (runbook : Text) (buckets : List (Key × Shadowed))
    → AllRows IsConsistent buckets
    → AllRows IsConsistent (shadow_step o runbook buckets)
unfolding shadow_step
shadow_step-AllRows o [] buckets all = all
shadow_step-AllRows o (c ∷ runbook) buckets all =
    update-AllRows IsConsistent (key_of o (c ∷ runbook)) (shadow_counted o) none_shadowed buckets
      (refl, omega arith, omega arith, omega arith, omega arith)
      (count_shadow-IsConsistent (get_or o.shadow_agreed false)
        (contains outcome_verdicts o.verdict) (correct == o.verdict))
      all

shadow_from-AllRows :
    (buckets : List (Key × Shadowed)) (outcomes : List Outcome)
    → AllRows IsConsistent buckets
    → AllRows IsConsistent (shadow_from buckets outcomes)
unfolding shadow_from
shadow_from-AllRows buckets [] all = all
shadow_from-AllRows buckets (o ∷ os) all =
    shadow_from-AllRows (shadow_step o (get_or o.shadow_runbook_id []) buckets) os
      (shadow_step-AllRows o (get_or o.shadow_runbook_id []) buckets all)

-- The report that clears a runbook to serve adds up: its total is the number of outcomes that
-- name a shadowed runbook, and in each row the agreements and disagreements make up the times
-- shadowed, the known verdicts are no more than those, the wins of the agents are no more than the
-- known verdicts, and the wins of the runbook are no more than its agreements, nor than the wins
-- of the agents.
pub summarise_shadow-IsConsistent :
    (outcomes : List Outcome)
    → ((summarise_shadow outcomes).summed ≡ length (keep names_runbook outcomes))
      × AllRows IsConsistent (summarise_shadow outcomes).rows
unfolding summarise_shadow
summarise_shadow-IsConsistent outcomes = (
  omega (
    arith,
    sum_by-sort (λ (c : Shadowed). c.shadowed) (shadow_from [] outcomes),
    shadow_from-total [] outcomes,
  ),
  sort-AllRows IsConsistent (shadow_from [] outcomes) (shadow_from-AllRows [] outcomes tt),
)
