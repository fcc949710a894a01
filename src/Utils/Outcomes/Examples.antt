-- ===== src/Utils/Outcomes/Examples.antt =====
-- The outcomes of src/utils/outcomes.py at sample verdicts.
use agentic_resident_crm.Prelude.{
  Text, codes, [], ◌∷◌, none, some, text_eq, keep, length, ◌≡◌, refl,
}
use agentic_resident_crm.Storage.{calm, load, save}
use agentic_resident_crm.Dlt.Versions.{strip}
use agentic_resident_crm.Utils.Outcomes.Recording.{
  Casebook, Request, Outcome, OutcomeStore, outcome_of, record_outcome, normalised, judged,
}
use agentic_resident_crm.Utils.Outcomes.Judging.{IsGrounded, record_outcome-IsGrounded}
use agentic_resident_crm.Utils.Outcomes.Report.{summarise_shadow}
use agentic_resident_crm.Utils.Outcomes.Totals.{
  AllRows, IsConsistent, names_runbook, summarise_shadow-IsConsistent,
}

abbrev casebook : Casebook
casebook = record {
  resolution = none;
  rejection_code = some (codes "R1");
  service = none;
  update_type = none;
  pilot = none;
}

abbrev request : Text → Request
request verdict = record {
  event_id = "ev-1";
  verdict = verdict;
  verified_by = codes "op";
  verified_at = 7;
  notes = [];
  corrected_action = none;
}

abbrev store : OutcomeStore
store = record { casebooks = calm (("ev-1", casebook) ∷ []); outcomes = calm [] }

abbrev outcome : Outcome
outcome = outcome_of (request (codes " correct")) (codes "CORRECT") casebook

record_outcome-IsGrounded_example :
    IsGrounded
      (request (codes " correct"))
      store
      outcome
      (record_outcome (request (codes " correct")) store).1
unfolding record_outcome normalised strip judged load save
record_outcome-IsGrounded_example =
    record_outcome-IsGrounded (request (codes " correct")) store outcome refl

summarise_shadow-IsConsistent_example :
    ((summarise_shadow (outcome ∷ [])).summed ≡ length (keep names_runbook (outcome ∷ [])))
    × AllRows IsConsistent (summarise_shadow (outcome ∷ [])).rows
summarise_shadow-IsConsistent_example = summarise_shadow-IsConsistent (outcome ∷ [])
