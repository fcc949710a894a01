-- ===== src/Dlt/Confidence/Examples.antt =====
-- The confidence policy of src/models/dlt_synthesis.py at sample findings.
use agentic_resident_crm.Prelude.{true, false, [], none, some, ◌≡◌, refl}
use agentic_resident_crm.Dlt.Findings.{FailureClass, code_defect, Verdict, unverifiable}
use agentic_resident_crm.Dlt.Samples.{percent, percent-IsOrdered, ceilings, finding}
use agentic_resident_crm.Dlt.Versions.{has_part}
use agentic_resident_crm.Dlt.Confidence.{Evidence, apply_dlt_confidence_policy}
use agentic_resident_crm.Dlt.Confidence.Bounds.{IsCapped, apply_dlt_confidence_policy-IsCapped}
use agentic_resident_crm.Dlt.Confidence.Discipline.{
  IsDisciplined, apply_dlt_confidence_policy-IsDisciplined,
}

abbrev evidence : FailureClass → Verdict → Evidence
evidence k v = record {
  failure_class = k;
  corroboration = v;
  registry_hit = true;
  reused = false;
  logs = [];
  could_not_look = some false;
}

capped_at_30 :
    (apply_dlt_confidence_policy percent ceilings
      (evidence code_defect unverifiable)
      (finding none 90)).confidence
    ≡ some 30
unfolding apply_dlt_confidence_policy has_part
capped_at_30 = refl

apply_dlt_confidence_policy-IsCapped_example :
    IsCapped percent percent-IsOrdered ceilings
      (evidence code_defect unverifiable)
      (finding none 90)
      30
apply_dlt_confidence_policy-IsCapped_example =
    apply_dlt_confidence_policy-IsCapped percent percent-IsOrdered ceilings
      (evidence code_defect unverifiable) (finding none 90) 30 capped_at_30

apply_dlt_confidence_policy-IsDisciplined_example :
    IsDisciplined percent ceilings (evidence code_defect unverifiable) (finding none 90) (
      apply_dlt_confidence_policy percent ceilings
        (evidence code_defect unverifiable)
        (finding none 90))
apply_dlt_confidence_policy-IsDisciplined_example =
    apply_dlt_confidence_policy-IsDisciplined percent ceilings (evidence code_defect unverifiable)
      (finding none 90)
