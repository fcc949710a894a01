-- ===== src/Dlt/Confidence/Bounds.antt =====
-- No confidence passes a ceiling that its case triggers.
use agentic_resident_crm.Prelude.{Bool, true, false, Option, none, some, ◌≡◌, subst}
use mathlib.Core.Option.{some-injective}
use agentic_resident_crm.Floats.{Floats, IsOrdered, lesser, lesser_left, lesser_right}
use agentic_resident_crm.Dlt.Versions.{has_part}
use agentic_resident_crm.Dlt.Findings.{
  FailureClass, business, code_defect, unknown, technical, Verdict, unverifiable, contradicted,
  corroborated, partial, Label, DltFinding,
}
use agentic_resident_crm.Dlt.Confidence.{
  Ceilings, Evidence, Caps, is_undiagnosed, cap_class, cap_unverifiable, cap_corroboration, cap_if,
  caps_of, capped, apply_dlt_confidence_policy,
}

module _ (floats : Floats) (ordered : IsOrdered floats) (settings : Ceilings floats) where
  open floats use {Float, below}

  -- `c` is not above `v`.
  abbrev NotAbove : Float → Float → Type 0
  NotAbove v c = below v c ≡ false

  lesser-keeps : (v w c : Float) → NotAbove v c → NotAbove v (lesser floats c w)
  lesser-keeps v w c h = ordered.not_below_trans v c _ h (lesser_left floats ordered c w)

  lesser_caps : (w c : Float) → NotAbove w (lesser floats c w)
  lesser_caps w c = lesser_right floats ordered c w

  cap_class_caps :
      (k : FailureClass) (caps : Caps floats)
      → is_undiagnosed k ≡ true
      → NotAbove settings.class_b_ceiling (cap_class floats settings k caps).ceiling
  unfolding cap_class
  cap_class_caps code_defect caps h = lesser_caps _ caps.ceiling
  cap_class_caps unknown caps h = lesser_caps _ caps.ceiling
  cap_class_caps business caps h = cc
  cap_class_caps technical caps h = cc

  cap_unverifiable-keeps :
      (v : Float) (looked : Option Bool) (caps : Caps floats)
      → NotAbove v caps.ceiling
      → NotAbove v (cap_unverifiable floats settings looked caps).ceiling
  unfolding cap_unverifiable
  cap_unverifiable-keeps v (some true) caps h = lesser-keeps v _ caps.ceiling h
  cap_unverifiable-keeps v (some false) caps h = lesser-keeps v _ caps.ceiling h
  cap_unverifiable-keeps v none caps h = lesser-keeps v _ caps.ceiling h

  cap_corroboration-keeps :
      (v : Float) (k : Verdict) (looked : Option Bool) (caps : Caps floats)
      → NotAbove v caps.ceiling
      → NotAbove v (cap_corroboration floats settings k looked caps).ceiling
  unfolding cap_corroboration
  cap_corroboration-keeps v unverifiable looked caps h = cap_unverifiable-keeps v looked caps h
  cap_corroboration-keeps v contradicted looked caps h = lesser-keeps v _ caps.ceiling h
  cap_corroboration-keeps v corroborated looked caps h = h
  cap_corroboration-keeps v partial looked caps h = h

  -- The ceiling that an unverifiable verdict brings, by what was looked at.
  abbrev pub unverifiable_ceiling : Option Bool → Float
  unverifiable_ceiling (some true) = settings.logs_unavailable_ceiling
  unverifiable_ceiling (some false) = settings.logs_silent_ceiling
  unverifiable_ceiling none = settings.unverified_ceiling

  cap_unverifiable_caps :
      (looked : Option Bool) (caps : Caps floats)
      → NotAbove
          (unverifiable_ceiling looked)
          (cap_unverifiable floats settings looked caps).ceiling
  unfolding cap_unverifiable
  cap_unverifiable_caps (some true) caps = lesser_caps _ caps.ceiling
  cap_unverifiable_caps (some false) caps = lesser_caps _ caps.ceiling
  cap_unverifiable_caps none caps = lesser_caps _ caps.ceiling

  cap_if-keeps :
      (v : Float) (b : Bool) (w : Float) (l : Label) (caps : Caps floats)
      → NotAbove v caps.ceiling
      → NotAbove v (cap_if floats settings b w l caps).ceiling
  unfolding cap_if
  cap_if-keeps v true w l caps h = lesser-keeps v w caps.ceiling h
  cap_if-keeps v false w l caps h = h

  cap_if_caps :
      (b : Bool) (w : Float) (l : Label) (caps : Caps floats)
      → b ≡ true
      → NotAbove w (cap_if floats settings b w l caps).ceiling
  unfolding cap_if
  cap_if_caps true w l caps h = lesser_caps w caps.ceiling
  cap_if_caps false w l caps h = cc

  cap_logs :
      (k : Verdict) (looked : Option Bool) (caps : Caps floats)
      → k ≡ unverifiable
      → NotAbove
          (unverifiable_ceiling looked)
          (cap_corroboration floats settings k looked caps).ceiling
  unfolding cap_corroboration
  cap_logs unverifiable looked caps h = cap_unverifiable_caps looked caps
  cap_logs contradicted looked caps h = cc
  cap_logs corroborated looked caps h = cc
  cap_logs partial looked caps h = cc

  cap_contradiction :
      (k : Verdict) (looked : Option Bool) (caps : Caps floats)
      → k ≡ contradicted
      → NotAbove settings.contradicted_ceiling
          (cap_corroboration floats settings k looked caps).ceiling
  unfolding cap_corroboration
  cap_contradiction unverifiable looked caps h = cc
  cap_contradiction contradicted looked caps h = lesser_caps _ caps.ceiling
  cap_contradiction corroborated looked caps h = cc
  cap_contradiction partial looked caps h = cc

  -- A confidence is above none of the ceilings that the evidence of its case triggers.
  pub record IsCapped (e : Evidence) (finding : DltFinding floats) (c : Float) : Type 0 where
    pub by_class : is_undiagnosed e.failure_class ≡ true → NotAbove settings.class_b_ceiling c
    pub by_logs :
        e.corroboration ≡ unverifiable → NotAbove (unverifiable_ceiling e.could_not_look) c
    pub by_contradiction : e.corroboration ≡ contradicted → NotAbove settings.contradicted_ceiling c
    pub by_registry :
        e.failure_class ≡ business
        → e.registry_hit ≡ false
        → NotAbove settings.registry_miss_ceiling c
    pub by_review : finding.reviewer_approved ≡ some false → NotAbove settings.unreviewed_ceiling c
    pub by_gap :
        has_part settings.banner_header e.logs ≡ true → NotAbove settings.gap_confidence_ceiling c

  caps_of-IsCapped :
      (e : Evidence) (finding : DltFinding floats)
      → IsCapped e finding (caps_of floats settings e finding).ceiling
  unfolding caps_of
  caps_of-IsCapped e finding = record {
    by_class = λ h. cap_if-keeps _ _ _ _ _ (
        cap_if-keeps _ _ _ _ _ (
          cap_if-keeps _ _ _ _ _ (
            cap_corroboration-keeps _ e.corroboration e.could_not_look _
              (cap_class_caps e.failure_class _ h))));
    by_logs = λ h. cap_if-keeps _ _ _ _ _ (
        cap_if-keeps _ _ _ _ _
          (cap_if-keeps _ _ _ _ _ (cap_logs e.corroboration e.could_not_look _ h)));
    by_contradiction = λ h. cap_if-keeps _ _ _ _ _ (
        cap_if-keeps _ _ _ _ _
          (cap_if-keeps _ _ _ _ _ (cap_contradiction e.corroboration e.could_not_look _ h)));
    by_registry =
        λ h k. cap_if-keeps _ _ _ _ _ (cap_if-keeps _ _ _ _ _ (cap_if_caps _ _ _ _ (rw (h, k))));
    by_review = λ h. cap_if-keeps _ _ _ _ _ (cap_if_caps _ _ _ _ (rw h));
    by_gap = λ h. cap_if_caps _ _ _ _ h;
  }

  below_both :
      (e : Evidence) (finding : DltFinding floats) (a c : Float)
      → IsCapped e finding c
      → NotAbove c a
      → IsCapped e finding a
  below_both e finding a c h k = record {
    by_class = λ p. ordered.not_below_trans _ c a (h.by_class p) k;
    by_logs = λ p. ordered.not_below_trans _ c a (h.by_logs p) k;
    by_contradiction = λ p. ordered.not_below_trans _ c a (h.by_contradiction p) k;
    by_registry = λ p q. ordered.not_below_trans _ c a (h.by_registry p q) k;
    by_review = λ p. ordered.not_below_trans _ c a (h.by_review p) k;
    by_gap = λ p. ordered.not_below_trans _ c a (h.by_gap p) k;
  }

  capped-IsCapped :
      (e : Evidence) (finding : DltFinding floats) (o : Option Float) (c : Float)
      → capped floats settings e (caps_of floats settings e finding) o ≡ some c
      → IsCapped e finding c
  unfolding capped
  capped-IsCapped e finding none c h = cc
  capped-IsCapped e finding (some x) c h = below_both e finding c _ (caps_of-IsCapped e finding) (
      subst (λ y. NotAbove (caps_of floats settings e finding).ceiling y) (some-injective _ _ h)
        (lesser_caps _ _))

  -- Whatever the model claimed, the confidence that the policy leaves is above none of the
  -- ceilings that the evidence triggers: the failure class, the kind of unverifiable logs, a
  -- contradiction, a registry miss, a refused review, an evidence gap.
  pub apply_dlt_confidence_policy-IsCapped :
      (e : Evidence) (finding : DltFinding floats) (c : Float)
      → (apply_dlt_confidence_policy floats settings e finding).confidence ≡ some c
      → IsCapped e finding c
  unfolding apply_dlt_confidence_policy
  apply_dlt_confidence_policy-IsCapped e finding c h =
      capped-IsCapped e finding finding.confidence c h
