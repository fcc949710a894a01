-- ===== src/Dlt/Confidence/Discipline.antt =====
-- What the confidence policy does to a finding beside its number: the labels, the discrepancy and
-- the action.
use agentic_resident_crm.Prelude.{
  Bool, true, false, not, ◌&&◌, Option, none, ◌≡◌, ◌⊎◌, arith, if◌then◌else◌,
}
use agentic_resident_crm.Floats.{Floats}
use agentic_resident_crm.Dlt.Findings.{
  DltFinding, Action, needs_manual_review, route_to_dev, truthy, is_discrepancy,
}
use agentic_resident_crm.Dlt.Confidence.{
  Ceilings, Evidence, is_undiagnosed, diagnoses, apply_dlt_confidence_policy,
}

module _ (floats : Floats) (settings : Ceilings floats) where
  -- A finding is routed, not diagnosed, where there is no source to reason about; it carries a
  -- discrepancy only under a verdict that found one; and no confidence is invented.
  pub record IsDisciplined (e : Evidence) (before after : DltFinding floats) : Type 0 where
    pub routed :
        is_undiagnosed e.failure_class ≡ true
        → (after.action ≡ needs_manual_review) ⊎ (after.action ≡ route_to_dev)
    pub kept_action : is_undiagnosed e.failure_class ≡ false → after.action ≡ before.action
    pub agreeing : is_discrepancy e.corroboration ≡ false → truthy after.discrepancy ≡ false
    pub disagreeing : is_discrepancy e.corroboration ≡ true → after.discrepancy ≡ before.discrepancy
    pub unscored : before.confidence ≡ none → after.confidence ≡ none

  -- The policy routes what cannot be diagnosed, drops a discrepancy that the verdict does not
  -- bear, and leaves an unscored finding unscored; other actions and discrepancies stay.
  pub apply_dlt_confidence_policy-IsDisciplined :
      (e : Evidence) (finding : DltFinding floats)
      → IsDisciplined e finding (apply_dlt_confidence_policy floats settings e finding)
  unfolding apply_dlt_confidence_policy
  apply_dlt_confidence_policy-IsDisciplined e finding = record {
    routed = λ h. route finding.action h;
    kept_action = λ h. rw h;
    agreeing = λ h. drop finding.discrepancy h;
    disagreeing = λ h. rw h (keep (truthy finding.discrepancy));
    unscored = λ h. ground arith;
  }
    where
      route :
          (a : Action)
          → is_undiagnosed e.failure_class ≡ true
          → let b =
              if is_undiagnosed e.failure_class && diagnoses a then needs_manual_review else a in
            (b ≡ needs_manual_review) ⊎ (b ≡ route_to_dev)
      route a h = ground arith

      drop :
          (d : Option _)
          → is_discrepancy e.corroboration ≡ false
          → truthy (if truthy d && not (is_discrepancy e.corroboration) then none else d) ≡ false
      drop d h = ground arith

      keep : (b : Bool) → (if b && false then none else finding.discrepancy) ≡ finding.discrepancy
      keep b = ground arith
