-- ===== src/Dlt/AutoReplay/Examples.antt =====
-- The automatic replay of src/dlt/auto_replay.py at a sample finding.
use agentic_resident_crm.Prelude.{true, false, not, ◌&&◌, [], ◌∷◌, none, some, ◌≡◌, ◌↔◌, refl, inl}
use agentic_resident_crm.Dlt.Findings.{business, unverifiable}
use agentic_resident_crm.Dlt.Samples.{percent, ceilings, replaying, finding, not_yet, accepting}
use agentic_resident_crm.Dlt.Confidence.{Evidence, apply_dlt_confidence_policy}
use agentic_resident_crm.Dlt.AutoReplay.{attempt, attempt_with, decide, args_for, maybe_replay}
use agentic_resident_crm.Dlt.AutoReplay.Gate.{Qualifies, withholds, decide_iff, decide-veto_only}
use agentic_resident_crm.Dlt.AutoReplay.Outcome.{
  IsSanctioned, maybe_replay-IsSanctioned, policy-decide,
}

cleared : (decide percent replaying (finding none 80) (some "ref-1") none).should_replay ≡ true
unfolding decide
cleared = refl

decide_iff_example :
    ((decide percent replaying (finding none 80) (some "ref-1") none).should_replay ≡ true)
    ↔ Qualifies percent replaying (finding none 80) (some "ref-1") none
decide_iff_example = decide_iff percent replaying (finding none 80) (some "ref-1") none

decide-veto_only_example :
    (decide percent replaying (finding none 80) (some "ref-1") (some not_yet)).should_replay ≡ (
      (decide percent replaying (finding none 80) (some "ref-1") none).should_replay
      && not (true && withholds percent replaying not_yet.verdict))
decide-veto_only_example =
    decide-veto_only percent replaying (finding none 80) (some "ref-1") not_yet

maybe_replay-IsSanctioned_example :
    IsSanctioned percent replaying accepting
      (some "ref-1")
      (finding none 80)
      none
      []
      (maybe_replay percent replaying accepting (some "ref-1") (finding none 80) none [])
maybe_replay-IsSanctioned_example =
    maybe_replay-IsSanctioned percent replaying accepting (some "ref-1") (finding none 80) none []

one_call :
    (maybe_replay percent replaying accepting (some "ref-1") (finding none 80) none []).1
    ≡ args_for percent replaying "ref-1" ∷ []
unfolding maybe_replay decide attempt attempt_with
one_call = refl

abbrev silent_logs : Evidence
silent_logs = record {
  failure_class = business;
  corroboration = unverifiable;
  registry_hit = true;
  reused = false;
  logs = [];
  could_not_look = some false;
}

policy-decide_example :
    (decide percent replaying
      (apply_dlt_confidence_policy percent ceilings silent_logs (finding none 99))
      (some "ref-1")
      none).should_replay
    ≡ false
policy-decide_example =
    policy-decide percent replaying ceilings silent_logs (finding none 99) (some "ref-1") none
      (inl (refl, refl))
