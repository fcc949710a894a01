-- ===== src/Dlt/Findings.antt =====
-- The vocabulary of the dead-letter lane: failure classes (src/dlt/classify.py), corroboration
-- verdicts (src/dlt/corroborate.py), actions and findings (src/models/dlt_synthesis.py), and the
-- verdict of the replay precheck (src/dlt/code_check.py).
use agentic_resident_crm.Prelude.{
  Bool, true, false, String, List, Option, none, some, Eq, ◌≡◌, ◌↔◌, arith,
}
use agentic_resident_crm.Floats.{Floats}

pub data FailureClass : Type 0 where
  business code_defect technical unknown : FailureClass

-- `Verdict` of the corroboration step.
pub data Verdict : Type 0 where
  corroborated partial contradicted unverifiable : Verdict

-- `DLT_ACTIONS`
pub data Action : Type 0 where
  needs_manual_review route_to_dev redrive_after_recovery data_fix_required no_action : Action

abbrev pub action_beq : Action → Action → Bool
action_beq needs_manual_review needs_manual_review = true
action_beq route_to_dev route_to_dev = true
action_beq redrive_after_recovery redrive_after_recovery = true
action_beq data_fix_required data_fix_required = true
action_beq no_action no_action = true
action_beq _ _ = false

pub action_beq_iff : (a b : Action) → (action_beq a b ≡ true) ↔ (a ≡ b)
action_beq_iff a b = (ground arith, ground arith)

instance abbrev pub action_eq : Eq Action
action_eq = record { same = action_beq; same_iff = action_beq_iff }

-- The labels of `ceilings_applied`.
pub data Label : Type 0 where
  class_b class_u : Label
  unverifiable_label logs_unavailable logs_silent contradicted_label : Label
  registry_miss unreviewed evidence_gap reuse_decay : Label

abbrev pub is_unverifiable : Label → Bool
is_unverifiable unverifiable_label = true
is_unverifiable _ = false

abbrev pub is_unreviewed : Label → Bool
is_unreviewed unreviewed = true
is_unreviewed _ = false

pub record DltFinding (floats : Floats) : Type 0 where
  pub narrative : String
  pub discrepancy : Option String
  pub recommendation : String
  pub action : Action
  pub confidence : Option floats.Float
  pub ceilings_applied : List Label
  pub abstained : Bool
  pub reviewer_approved : Option Bool

-- The truth value of an optional text.
abbrev pub nonempty : String → Bool
nonempty String.[] = false
nonempty (String.◌∷◌ c s) = true

abbrev pub truthy : Option String → Bool
truthy none = false
truthy (some s) = nonempty s

-- `CONTRADICTED` and `PARTIAL`, `DISCREPANCY_VERDICTS`.
abbrev pub is_discrepancy : Verdict → Bool
is_discrepancy partial = true
is_discrepancy contradicted = true
is_discrepancy _ = false

-- The verdicts of the replay precheck.
pub data CheckVerdict : Type 0 where
  no_change not_deployed fix_deployed undecided : CheckVerdict
