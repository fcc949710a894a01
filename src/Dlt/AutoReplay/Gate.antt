-- ===== src/Dlt/AutoReplay/Gate.antt =====
-- When `decide` of src/dlt/auto_replay.py lets a replay through.
use agentic_resident_crm.Prelude.{
  Bool, true, false, not, ◌&&◌, String, Option, none, some, any, contains, ◌≡◌, ◌⊎◌, ◌↔◌, refl,
  arith,
}
use agentic_resident_crm.Floats.{Floats}
use agentic_resident_crm.Dlt.Findings.{
  action_eq, DltFinding, is_unverifiable, is_unreviewed, truthy, CheckVerdict, no_change,
  not_deployed,
}
use agentic_resident_crm.Dlt.AutoReplay.{
  ReplaySettings, CodeCheck, code_check_veto, decide_scored, decide_confidence, decide,
}

module _ (floats : Floats) (settings : ReplaySettings floats) where
  open floats use {Float, below}

  -- A precheck withholds a replay.
  abbrev pub Withholds : CheckVerdict → Type 0
  Withholds verdict = (verdict ≡ no_change) ⊎ (verdict ≡ not_deployed)

  -- All that a replay takes.
  pub record Qualifies (finding : DltFinding floats) (ref_id : Option String)
      (check : Option CodeCheck) : Type 0 where
    pub switched_on : settings.auto_replay_enabled ≡ true
    pub listed : contains settings.replay_actions finding.action ≡ true
    pub score : Float
    pub scored : finding.confidence ≡ some score
    pub cleared : below score settings.confidence_threshold ≡ false
    pub verified :
        (any is_unverifiable finding.ceilings_applied ≡ false) ⊎ (settings.allow_unverified ≡ true)
    pub reviewed : any is_unreviewed finding.ceilings_applied ≡ false
    pub identified : truthy ref_id ≡ true
    pub unopposed : code_check_veto floats settings check ≡ none

  scored-Qualifies :
      (finding : DltFinding floats) (ref_id : Option String) (check : Option CodeCheck) (c : Float)
      → (decide_scored floats settings finding ref_id check c).should_replay ≡ true
      → (below c settings.confidence_threshold ≡ false)
        × ((any is_unverifiable finding.ceilings_applied ≡ false)
            ⊎ (settings.allow_unverified ≡ true))
        × (any is_unreviewed finding.ceilings_applied ≡ false)
        × (truthy ref_id ≡ true)
        × (code_check_veto floats settings check ≡ none)
  unfolding decide_scored
  scored-Qualifies finding ref_id check c h = ground arith

  confidence-Qualifies :
      (finding : DltFinding floats) (ref_id : Option String) (check : Option CodeCheck)
      (o : Option Float)
      → (decide_confidence floats settings finding ref_id check o).should_replay ≡ true
      → (c : Float) × (o ≡ some c)
        × ((decide_scored floats settings finding ref_id check c).should_replay ≡ true)
  unfolding decide_confidence
  confidence-Qualifies finding ref_id check none h = cc
  confidence-Qualifies finding ref_id check (some c) h = (c, refl, h)

  decide_parts :
      (finding : DltFinding floats) (ref_id : Option String) (check : Option CodeCheck)
      → (decide floats settings finding ref_id check).should_replay ≡ true
      → (settings.auto_replay_enabled ≡ true)
        × (contains settings.replay_actions finding.action ≡ true)
        × ((decide_confidence floats settings finding ref_id check finding.confidence).should_replay
            ≡ true)
  unfolding decide
  decide_parts finding ref_id check h = ground arith

  decide_sound :
      (finding : DltFinding floats) (ref_id : Option String) (check : Option CodeCheck)
      → (decide floats settings finding ref_id check).should_replay ≡ true
      → Qualifies finding ref_id check
  decide_sound finding ref_id check h =
      let (on, listed, rest) = decide_parts finding ref_id check h in
      let (c, scored, last) = confidence-Qualifies finding ref_id check finding.confidence rest in
      let (cleared, verified, reviewed, identified, unopposed) =
        scored-Qualifies finding ref_id check c last in
      record {
        switched_on = on;
        listed = listed;
        score = c;
        scored = scored;
        cleared = cleared;
        verified = verified;
        reviewed = reviewed;
        identified = identified;
        unopposed = unopposed;
      }

  decide_complete :
      (finding : DltFinding floats) (ref_id : Option String) (check : Option CodeCheck)
      → Qualifies finding ref_id check
      → (decide floats settings finding ref_id check).should_replay ≡ true
  unfolding decide decide_scored
  decide_complete finding ref_id check q =
      rw (q.switched_on, q.listed, q.scored, decide_confidence)
        (rw (q.cleared, q.reviewed, q.identified, q.unopposed) (ground (arith, q.verified)))

  -- A dead letter is replayed exactly where the switch is on, its action is listed, it has a
  -- confidence that is not below the threshold, the logs verified it or the operator waived
  -- that, no reviewer refused it, it has a refId, and no precheck stands against it.
  pub decide_iff :
      (finding : DltFinding floats) (ref_id : Option String) (check : Option CodeCheck)
      → ((decide floats settings finding ref_id check).should_replay ≡ true)
        ↔ Qualifies finding ref_id check
  decide_iff finding ref_id check =
      (decide_sound finding ref_id check, decide_complete finding ref_id check)

  abbrev pub withholds : CheckVerdict → Bool
  withholds no_change = true
  withholds not_deployed = true
  withholds _ = false

  scored-veto_only :
      (finding : DltFinding floats) (ref_id : Option String) (check : CodeCheck) (c : Float)
      → (decide_scored floats settings finding ref_id (some check) c).should_replay ≡ (
          (decide_scored floats settings finding ref_id none c).should_replay
          && not (settings.code_check_gates_replay && withholds check.verdict))
  unfolding decide_scored
  scored-veto_only finding ref_id check c = ground arith

  confidence-veto_only :
      (finding : DltFinding floats) (ref_id : Option String) (check : CodeCheck) (o : Option Float)
      → (decide_confidence floats settings finding ref_id (some check) o).should_replay ≡ (
          (decide_confidence floats settings finding ref_id none o).should_replay
          && not (settings.code_check_gates_replay && withholds check.verdict))
  unfolding decide_confidence
  confidence-veto_only finding ref_id check none = refl
  confidence-veto_only finding ref_id check (some c) = scored-veto_only finding ref_id check c

  -- The precheck is a veto only: with a verdict a dead letter is replayed exactly where it would
  -- have been without one and the verdict does not withhold it.
  pub decide-veto_only :
      (finding : DltFinding floats) (ref_id : Option String) (check : CodeCheck)
      → (decide floats settings finding ref_id (some check)).should_replay ≡ (
          (decide floats settings finding ref_id none).should_replay
          && not (settings.code_check_gates_replay && withholds check.verdict))
  unfolding decide
  decide-veto_only finding ref_id check =
      ground (arith, confidence-veto_only finding ref_id check finding.confidence)
