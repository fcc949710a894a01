-- ===== src/Dlt/AutoReplay/Outcome.antt =====
-- What `maybe_replay` of src/dlt/auto_replay.py does to the outside world, and what the confidence
-- policy and the gate guarantee together.
use agentic_resident_crm.Prelude.{
  Bool, true, false, String, List, [], ◌∷◌, ◌++◌, Option, none, some, if◌then◌else◌, map, ◌≡◌, refl,
  arith, Bool-cases, inl, inr, ◌⊎◌, sym, ◌∙◌, ap,
}
use mathlib.Core.List.{append-nil, map-append}
use agentic_resident_crm.Floats.{Floats}
use agentic_resident_crm.Dlt.Findings.{DltFinding, truthy, unverifiable}
use agentic_resident_crm.Dlt.Confidence.{Ceilings, Evidence, apply_dlt_confidence_policy}
use agentic_resident_crm.Dlt.Confidence.Labels.{unverifiable_labelled, unreviewed_labelled}
use agentic_resident_crm.Dlt.AutoReplay.{
  ReplaySettings, CodeCheck, Reason, Replay, ReplayArgs, ToolOutcome, returned, raised,
  replay_succeeded, args_for, invoke, attempt, attempt_with, reported, replay_if, decide,
  maybe_replay,
}
use agentic_resident_crm.Dlt.AutoReplay.Gate.{decide_iff, Qualifies}

module _ (floats : Floats) (settings : ReplaySettings floats) where
  -- Whether the tool answers that the replay is queued.
  abbrev pub reports_queued : ToolOutcome → Bool
  reports_queued (returned text) = replay_succeeded floats settings text
  reports_queued (raised error) = false

  attempt_with_parts :
      (args : ReplayArgs) (o : ToolOutcome) (calls : List ReplayArgs)
      → let (outcome, after) = attempt_with floats settings args (o, calls) in
        (after ≡ calls) × (outcome.args ≡ some args) × (outcome.queued ≡ reports_queued o)
  unfolding attempt_with
  attempt_with_parts args (returned text) calls = (refl, refl, refl)
  attempt_with_parts args (raised error) calls = (refl, refl, refl)

  -- The identifiers that an attempt sends for a refId: the refId, if it is not empty.
  abbrev pub named : Option String → List String
  named none = []
  named (some ref) = if truthy (some ref) then ref ∷ [] else []

  attempt_with_args :
      (tool : ReplayArgs → ToolOutcome) (ref : String) (calls : List ReplayArgs)
      → map
          (λ (a : ReplayArgs). a.id)
          (attempt_with floats settings
            (args_for floats settings ref)
            (invoke floats settings tool (args_for floats settings ref) calls)).1
        ≡ map (λ (a : ReplayArgs). a.id) calls ++ ref ∷ []
  unfolding args_for
  attempt_with_args tool ref calls =
      ap (map (λ (a : ReplayArgs). a.id)) (attempt_with_parts _ _ _).0 ∙ map-append _ calls _

  -- An attempt adds to the calls just one for a refId that is not empty, with that refId.
  pub attempt-named :
      (tool : ReplayArgs → ToolOutcome) (ref_id : Option String) (calls : List ReplayArgs)
      → map (λ (a : ReplayArgs). a.id) (attempt floats settings tool ref_id calls).1
        ≡ map (λ (a : ReplayArgs). a.id) calls ++ named ref_id
  unfolding attempt
  attempt-named tool none calls = sym (append-nil _)
  attempt-named tool (some ref) calls = elim (Bool-cases (truthy (some ref))) [
    | inl there ↦ rw there (attempt_with_args tool ref calls)
    | inr empty ↦ rw empty (sym (append-nil _))
  ]

  -- The gate refused, and nothing reached OIS.
  pub record IsHeld (ref_id : Option String) (finding : DltFinding floats)
      (check : Option CodeCheck) (calls after : List ReplayArgs) (report : Replay floats)
      : Type 0 where
    pub refused : (decide floats settings finding ref_id check).should_replay ≡ false
    pub unsent : after ≡ calls
    pub unattempted : report.attempted ≡ false
    pub unqueued : report.queued ≡ false

  -- The gate agreed, and one call reached OIS, with the refId.
  pub record IsSent (tool : ReplayArgs → ToolOutcome) (ref_id : Option String)
      (finding : DltFinding floats) (check : Option CodeCheck) (calls after : List ReplayArgs)
      (report : Replay floats) : Type 0 where
    pub decided : (decide floats settings finding ref_id check).should_replay ≡ true
    pub sent : ReplayArgs
    pub once : after ≡ calls ++ sent ∷ []
    pub for_ref : ref_id ≡ some sent.id
    pub identified : truthy ref_id ≡ true
    pub shown : report.args ≡ some sent
    pub settled : report.queued ≡ reports_queued (tool sent)

  abbrev pub IsSanctioned :
      (ReplayArgs → ToolOutcome)
      → Option String
      → DltFinding floats
      → Option CodeCheck
      → List ReplayArgs
      → Replay floats × List ReplayArgs
      → Type 0
  IsSanctioned tool ref_id finding check calls (report, after) =
      IsHeld ref_id finding check calls after report
      ⊎ IsSent tool ref_id finding check calls after report

  replayed-IsSent :
      (tool : ReplayArgs → ToolOutcome) (ref_id : Option String) (finding : DltFinding floats)
      (check : Option CodeCheck) (calls : List ReplayArgs) (reason : Reason floats)
      → (decide floats settings finding ref_id check).should_replay ≡ true
      → truthy ref_id ≡ true
      → let (report, after) =
          reported floats settings reason (attempt floats settings tool ref_id calls) in
        IsSent tool ref_id finding check calls after report
  unfolding attempt args_for
  replayed-IsSent tool none finding check calls reason yes_replay there = cc there
  replayed-IsSent tool (some ref) finding check calls reason yes_replay there =
      let args = args_for floats settings ref in
      let (same, shown, settled) = attempt_with_parts args (tool args) (calls ++ args ∷ []) in
      rw there (record {
        decided = yes_replay;
        sent = args;
        once = same;
        for_ref = refl;
        identified = there;
        shown = shown;
        settled = settled;
      })

  -- Nothing reaches the replay tool where the gate refuses the packet. Where the gate agrees just
  -- one call does, with the case's own refId, which is not empty, and the report shows that call and
  -- says queued just where the tool returned a text that reports success.
  pub maybe_replay-IsSanctioned :
      (tool : ReplayArgs → ToolOutcome) (ref_id : Option String) (finding : DltFinding floats)
      (check : Option CodeCheck) (calls : List ReplayArgs)
      → IsSanctioned tool ref_id finding check calls
          (maybe_replay floats settings tool ref_id finding check calls)
  unfolding maybe_replay
  maybe_replay-IsSanctioned tool ref_id finding check calls =
      by_decision (decide floats settings finding ref_id check).should_replay refl
    where
      by_decision :
          (b : Bool)
          → (decide floats settings finding ref_id check).should_replay ≡ b
          → IsSanctioned tool ref_id finding check calls (
              replay_if floats settings tool ref_id
                (decide floats settings finding ref_id check).reason
                b
                calls)
      by_decision false e =
          inl (record { refused = e; unsent = refl; unattempted = refl; unqueued = refl })
      by_decision true e = inr (
          replayed-IsSent tool ref_id finding check calls
            (decide floats settings finding ref_id check).reason e
            ((decide_iff floats settings finding ref_id check).0 e).identified)

module _ (floats : Floats) (settings : ReplaySettings floats) (ceilings : Ceilings floats) where
  -- Where the operator has not waived it, a finding whose logs verified nothing is never
  -- replayed automatically, however confident the model was; and one that the Reviewer refused
  -- never is.
  pub policy-decide :
      (e : Evidence) (finding : DltFinding floats) (ref_id : Option String)
      (check : Option CodeCheck)
      → ((e.corroboration ≡ unverifiable) × (settings.allow_unverified ≡ false))
        ⊎ (finding.reviewer_approved ≡ some false)
      → (decide floats settings
          (apply_dlt_confidence_policy floats ceilings e finding)
          ref_id
          check).should_replay
        ≡ false
  policy-decide e finding ref_id check why =
      elim (Bool-cases (decide floats settings after ref_id check).should_replay) [
        | inl yes_replay ↦
            absurd (refuted why ((decide_iff floats settings after ref_id check).0 yes_replay))
        | inr refused ↦ refused
      ]
    where
      after : DltFinding floats
      after = apply_dlt_confidence_policy floats ceilings e finding

      refuted :
          ((e.corroboration ≡ unverifiable) × (settings.allow_unverified ≡ false))
            ⊎ (finding.reviewer_approved ≡ some false)
          → Qualifies floats settings after ref_id check
          → ⊥
      refuted (inl (k, strict)) q =
          ground (arith, q.verified, unverifiable_labelled floats ceilings e finding k)
      refuted (inr r) q = cc (q.reviewed, unreviewed_labelled floats ceilings e finding r)
