-- ===== src/Dlt/Confidence/Labels.antt =====
-- The labels that the confidence policy writes on a finding.
use agentic_resident_crm.Prelude.{
  Bool, true, false, Option, none, some, ◌≡◌, refl, arith, List, [], ◌∷◌, ◌++◌, any,
}
use agentic_resident_crm.Floats.{Floats}
use agentic_resident_crm.Dlt.Findings.{
  Verdict, unverifiable, contradicted, corroborated, partial, Label, is_unverifiable, is_unreviewed,
  DltFinding, unreviewed, reuse_decay, unverifiable_label, logs_unavailable, logs_silent,
}
use agentic_resident_crm.Dlt.Confidence.{
  Ceilings, Evidence, Caps, is_refused, cap_unverifiable, cap_corroboration, cap_if, caps_of,
  labels, apply_dlt_confidence_policy,
}

module _ (floats : Floats) (settings : Ceilings floats) where
  -- Membership of a kind of label only grows.
  any-snoc :
      (p : Label → Bool) (ls : List Label) (l : Label)
      → any p ls ≡ true
      → any p (ls ++ l ∷ []) ≡ true
  any-snoc p [] l h = cc
  any-snoc p (x ∷ ls) l h = ground (arith, any-snoc p ls l)

  any-snoc_self :
      (p : Label → Bool) (ls : List Label) (l : Label) → p l ≡ true → any p (ls ++ l ∷ []) ≡ true
  any-snoc_self p [] l h = rw h
  any-snoc_self p (x ∷ ls) l h = ground (arith, any-snoc_self p ls l)

  cap_if-labels :
      (p : Label → Bool) (b : Bool) (w : floats.Float) (l : Label) (caps : Caps floats)
      → any p caps.applied ≡ true
      → any p (cap_if floats settings b w l caps).applied ≡ true
  unfolding cap_if
  cap_if-labels p true w l caps h = any-snoc p caps.applied l h
  cap_if-labels p false w l caps h = h

  labels-caps :
      (p : Label → Bool) (e : Evidence) (caps : Caps floats) (o : Option floats.Float)
      → any p caps.applied ≡ true
      → any p (labels floats settings e caps o) ≡ true
  unfolding labels
  labels-caps p e caps none h = h
  labels-caps p e caps (some c) h = ground (arith, any-snoc p caps.applied reuse_decay)

  cap_unverifiable_label :
      (looked : Option Bool) (caps : Caps floats)
      → any is_unverifiable (cap_unverifiable floats settings looked caps).applied ≡ true
  unfolding cap_unverifiable
  cap_unverifiable_label (some true) caps =
      any-snoc is_unverifiable (caps.applied ++ unverifiable_label ∷ []) logs_unavailable
        (any-snoc_self is_unverifiable caps.applied unverifiable_label refl)
  cap_unverifiable_label (some false) caps =
      any-snoc is_unverifiable (caps.applied ++ unverifiable_label ∷ []) logs_silent
        (any-snoc_self is_unverifiable caps.applied unverifiable_label refl)
  cap_unverifiable_label none caps =
      any-snoc_self is_unverifiable caps.applied unverifiable_label refl

  cap_corroboration_label :
      (k : Verdict) (looked : Option Bool) (caps : Caps floats)
      → k ≡ unverifiable
      → any is_unverifiable (cap_corroboration floats settings k looked caps).applied ≡ true
  unfolding cap_corroboration
  cap_corroboration_label unverifiable looked caps h = cap_unverifiable_label looked caps
  cap_corroboration_label contradicted looked caps h = cc
  cap_corroboration_label corroborated looked caps h = cc
  cap_corroboration_label partial looked caps h = cc

  cap_if_label :
      (b : Bool) (w : floats.Float) (caps : Caps floats)
      → b ≡ true
      → any is_unreviewed (cap_if floats settings b w unreviewed caps).applied ≡ true
  unfolding cap_if
  cap_if_label true w caps h = any-snoc_self is_unreviewed caps.applied unreviewed refl
  cap_if_label false w caps h = cc

  caps_of-unverifiable :
      (e : Evidence) (finding : DltFinding floats)
      → e.corroboration ≡ unverifiable
      → any is_unverifiable (caps_of floats settings e finding).applied ≡ true
  unfolding caps_of
  caps_of-unverifiable e finding h = cap_if-labels is_unverifiable _ _ _ _ (
      cap_if-labels is_unverifiable _ _ _ _ (
        cap_if-labels is_unverifiable _ _ _ _
          (cap_corroboration_label e.corroboration e.could_not_look _ h)))

  caps_of-unreviewed :
      (e : Evidence) (finding : DltFinding floats)
      → finding.reviewer_approved ≡ some false
      → any is_unreviewed (caps_of floats settings e finding).applied ≡ true
  unfolding caps_of
  caps_of-unreviewed e finding h =
      let refused : is_refused finding.reviewer_approved ≡ true = rw h in
      cap_if-labels is_unreviewed _ _ _ _ (cap_if_label _ _ _ refused)

  -- A finding whose logs could verify nothing says so among its ceilings.
  pub unverifiable_labelled :
      (e : Evidence) (finding : DltFinding floats)
      → e.corroboration ≡ unverifiable
      → any is_unverifiable (apply_dlt_confidence_policy floats settings e finding).ceilings_applied
        ≡ true
  unfolding apply_dlt_confidence_policy
  unverifiable_labelled e finding h =
      labels-caps is_unverifiable e (caps_of floats settings e finding) finding.confidence
        (caps_of-unverifiable e finding h)

  -- A finding that the Reviewer refused says so among its ceilings.
  pub unreviewed_labelled :
      (e : Evidence) (finding : DltFinding floats)
      → finding.reviewer_approved ≡ some false
      → any is_unreviewed (apply_dlt_confidence_policy floats settings e finding).ceilings_applied
        ≡ true
  unfolding apply_dlt_confidence_policy
  unreviewed_labelled e finding h =
      labels-caps is_unreviewed e (caps_of floats settings e finding) finding.confidence
        (caps_of-unreviewed e finding h)
