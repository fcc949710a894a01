-- ===== src/Dlt/Confidence.antt =====
-- `apply_dlt_confidence_policy` of src/models/dlt_synthesis.py. The ceilings that it reads from
-- the environment are the fields of `Ceilings`.
pub mod Bounds
pub mod Discipline
pub mod Labels
mod Examples
use agentic_resident_crm.Prelude.{
  Bool, true, false, not, ◌&&◌, ◌||◌, String, Text, List, [], ◌∷◌, ◌++◌, Option, none, some,
  if◌then◌else◌, codes,
}
use agentic_resident_crm.Floats.{Floats, lesser}
use agentic_resident_crm.Dlt.Versions.{has_part}
use agentic_resident_crm.Dlt.Findings.{
  FailureClass, business, code_defect, technical, unknown, Verdict, unverifiable, contradicted,
  Action, needs_manual_review, route_to_dev, Label, class_b, class_u, unverifiable_label,
  logs_unavailable, logs_silent, contradicted_label, registry_miss, unreviewed, evidence_gap,
  reuse_decay, DltFinding, truthy, is_discrepancy,
}

pub record Ceilings (floats : Floats) : Type 0 where
  pub class_b_ceiling : floats.Float
  pub unverified_ceiling : floats.Float
  pub logs_unavailable_ceiling : floats.Float
  pub logs_silent_ceiling : floats.Float
  pub contradicted_ceiling : floats.Float
  pub registry_miss_ceiling : floats.Float
  pub unreviewed_ceiling : floats.Float
  pub gap_confidence_ceiling : floats.Float
  pub reuse_decay_factor : floats.Float
  pub banner_header : Text

-- The arguments beside the finding.
pub record Evidence : Type 0 where
  pub failure_class : FailureClass
  pub corroboration : Verdict
  pub registry_hit : Bool
  pub reused : Bool
  pub logs : Text
  pub could_not_look : Option Bool

-- The local variables `ceiling` and `applied`.
pub record Caps (floats : Floats) : Type 0 where
  pub ceiling : floats.Float
  pub applied : List Label

abbrev pub is_undiagnosed : FailureClass → Bool
is_undiagnosed code_defect = true
is_undiagnosed unknown = true
is_undiagnosed _ = false

abbrev pub is_business : FailureClass → Bool
is_business business = true
is_business _ = false

abbrev pub is_refused : Option Bool → Bool
is_refused (some false) = true
is_refused _ = false

-- `action not in ("NEEDS_MANUAL_REVIEW", "ROUTE_TO_DEV")`
abbrev pub diagnoses : Action → Bool
diagnoses needs_manual_review = false
diagnoses route_to_dev = false
diagnoses _ = true

module _ (floats : Floats) (settings : Ceilings floats) where
  open floats use {Float, times, one}

  unfoldable pub cap : Float → Label → Caps floats → Caps floats
  cap value label caps = record {
    ceiling = lesser floats caps.ceiling value;
    applied = caps.applied ++ label ∷ [];
  }

  unfoldable pub note : Label → Caps floats → Caps floats
  note label caps = record caps { applied = caps.applied ++ label ∷ [] }

  unfoldable pub cap_class : FailureClass → Caps floats → Caps floats
  unfolding cap
  cap_class code_defect caps = cap settings.class_b_ceiling class_b caps
  cap_class unknown caps = cap settings.class_b_ceiling class_u caps
  cap_class _ caps = caps

  unfoldable pub cap_unverifiable : Option Bool → Caps floats → Caps floats
  unfolding cap note
  cap_unverifiable (some true) caps =
      note logs_unavailable (cap settings.logs_unavailable_ceiling unverifiable_label caps)
  cap_unverifiable (some false) caps =
      note logs_silent (cap settings.logs_silent_ceiling unverifiable_label caps)
  cap_unverifiable none caps = cap settings.unverified_ceiling unverifiable_label caps

  unfoldable pub cap_corroboration : Verdict → Option Bool → Caps floats → Caps floats
  unfolding cap cap_unverifiable
  cap_corroboration unverifiable looked caps = cap_unverifiable looked caps
  cap_corroboration contradicted looked caps =
      cap settings.contradicted_ceiling contradicted_label caps
  cap_corroboration _ looked caps = caps

  unfoldable pub cap_if : Bool → Float → Label → Caps floats → Caps floats
  unfolding cap
  cap_if true value label caps = cap value label caps
  cap_if false value label caps = caps

  -- The ceilings in the order of the source.
  unfoldable pub caps_of : Evidence → DltFinding floats → Caps floats
  caps_of e finding =
      let start : Caps floats = record { ceiling = one; applied = [] } in
      let classed = cap_class e.failure_class start in
      let verified = cap_corroboration e.corroboration e.could_not_look classed in
      let registered =
        cap_if (is_business e.failure_class && not e.registry_hit) settings.registry_miss_ceiling
          registry_miss verified in
      let reviewed =
        cap_if (is_refused finding.reviewer_approved) settings.unreviewed_ceiling unreviewed
          registered in
      cap_if (has_part settings.banner_header e.logs) settings.gap_confidence_ceiling evidence_gap
        reviewed

  unfoldable pub decayed : Bool → Float → Float
  decayed reused confidence =
      if reused then times confidence settings.reuse_decay_factor else confidence

  unfoldable pub capped : Evidence → Caps floats → Option Float → Option Float
  unfolding decayed
  capped e caps none = none
  capped e caps (some c) = some (lesser floats (decayed e.reused c) caps.ceiling)

  unfoldable pub labels : Evidence → Caps floats → Option Float → List Label
  labels e caps none = caps.applied
  labels e caps (some c) = if e.reused then caps.applied ++ reuse_decay ∷ [] else caps.applied

  unfoldable pub apply_dlt_confidence_policy : Evidence → DltFinding floats → DltFinding floats
  unfolding caps_of cap_class cap_corroboration cap_if capped labels
  apply_dlt_confidence_policy e finding =
      let caps = caps_of e finding in
      record finding {
        confidence = capped e caps finding.confidence;
        ceilings_applied = labels e caps finding.confidence;
        discrepancy =
            if truthy finding.discrepancy && not (is_discrepancy e.corroboration)
            then none
            else finding.discrepancy;
        action =
            if is_undiagnosed e.failure_class && diagnoses finding.action
            then needs_manual_review
            else finding.action;
      }
