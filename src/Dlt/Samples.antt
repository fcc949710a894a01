-- ===== src/Dlt/Samples.antt =====
-- Sample data of the dead-letter lane: confidences in percent, a deployment's settings and a
-- finding.
use agentic_resident_crm.Prelude.{
  ℕ, ◌*◌, ◌/◌, Bool, true, false, [], ◌∷◌, ltb, codes, Option, none, some, ◌≡◌, arith,
}
use agentic_resident_crm.Floats.{Floats, IsOrdered}
use agentic_resident_crm.Dlt.Findings.{redrive_after_recovery, DltFinding, not_deployed}
use agentic_resident_crm.Dlt.Confidence.{Ceilings}
use agentic_resident_crm.Dlt.AutoReplay.{
  ReplaySettings, CodeCheck, ReplayArgs, ToolOutcome, returned,
}

abbrev pub percent : Floats
percent = record { Float = ℕ; below = ltb; times = λ (a b : ℕ). a * b / 100; one = 100 }

pub percent-IsOrdered : IsOrdered percent
percent-IsOrdered = record {
  asym = λ (a b : ℕ) h. below_asym a b h;
  not_below_trans = λ (a b c : ℕ) h k. below_trans a b c h k;
}
  where
    below_asym : (a b : ℕ) → ltb a b ≡ true → ltb b a ≡ false
    below_asym a b h = ground arith

    below_trans : (a b c : ℕ) → ltb a b ≡ false → ltb b c ≡ false → ltb a c ≡ false
    below_trans a b c h k = ground arith

abbrev pub ceilings : Ceilings percent
ceilings = record {
  class_b_ceiling = 30;
  unverified_ceiling = 50;
  logs_unavailable_ceiling = 75;
  logs_silent_ceiling = 60;
  contradicted_ceiling = 60;
  registry_miss_ceiling = 50;
  unreviewed_ceiling = 50;
  gap_confidence_ceiling = 40;
  reuse_decay_factor = 95;
  banner_header = codes "GAPS";
}

abbrev pub replaying : ReplaySettings percent
replaying = record {
  auto_replay_enabled = true;
  confidence_threshold = 55;
  replay_actions = redrive_after_recovery ∷ [];
  allow_unverified = false;
  code_check_gates_replay = true;
  id_type = "REFID";
  operator_name = "dlt-analysis-auto";
  replay_category = "DLT_REDRIVE";
  replay_priority = 5;
  from_seda_start = false;
}

abbrev pub finding : Option Bool → ℕ → DltFinding percent
finding approved confidence = record {
  narrative = "";
  discrepancy = none;
  recommendation = "";
  action = redrive_after_recovery;
  confidence = some confidence;
  ceilings_applied = [];
  abstained = false;
  reviewer_approved = approved;
}

-- A fix that ships in 1.0.3 while 1.0.2 runs.
abbrev pub not_yet : CodeCheck
not_yet = record {
  verdict = not_deployed;
  reason = [];
  repo = none;
  path = none;
  baseline_version = some (codes "1.0.2");
  running_version = some (codes "1.0.2");
  required_version = some (codes "1.0.3");
}

abbrev pub accepting : ReplayArgs → ToolOutcome
accepting args = returned "Successfully queued"
