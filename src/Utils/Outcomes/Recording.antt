-- ===== src/Utils/Outcomes/Recording.antt =====
-- `record_outcome` of src/utils/outcomes.py. The casebooks and the outcomes are two stores, since
-- they are different files of a key.
use agentic_resident_crm.Prelude.{
  ℕ, ◌-◌, nat_eq, Bool, false, List, [], ◌∷◌, String, Option, none, some, if◌then◌else◌, text_eq,
  Text, codes, contains, get_or, map,
}
use agentic_resident_crm.Storage.{Disk, Answer, answered, raised, load, save}
use agentic_resident_crm.Dlt.Versions.{strip}

pub record Provenance : Type 0 where
  pub prompt_fingerprint : Option Text
  pub doc_outcome : Option Text
  pub doc_sha256 : Option Text
  pub investigator_path : Option Text

pub record Shadow : Type 0 where
  pub action : Option Text
  pub runbook_id : Option Text
  pub agreed : Option Bool

-- A confidence is a float that is passed on, here as its text.
pub record Resolution : Type 0 where
  pub source : Option Text
  pub action : Option Text
  pub confidence : Option Text
  pub abstained : Option Bool
  pub shadow : Option Shadow
  pub provenance : Option Provenance

pub record Casebook : Type 0 where
  pub resolution : Option Resolution
  pub rejection_code : Option Text
  pub service : Option Text
  pub update_type : Option Text
  pub pilot : Option Bool

pub record Outcome : Type 0 where
  pub event_id : String
  pub verdict : Text
  pub verified_by : Text
  pub verified_at : ℕ
  pub notes : Text
  pub service : Option Text
  pub pilot : Bool
  pub reason_code : Option Text
  pub enrolment_type : Option Text
  pub resolution_source : Option Text
  pub agent_action : Option Text
  pub corrected_action : Option Text
  pub confidence : Option Text
  pub abstained : Bool
  pub shadow_action : Option Text
  pub shadow_runbook_id : Option Text
  pub shadow_agreed : Option Bool
  pub prompt_fingerprint : Option Text
  pub reason_code_doc_outcome : Option Text
  pub reason_code_doc_sha256 : Option Text
  pub investigator_path : Option Text

-- `OUTCOME_VERDICTS`
abbrev pub correct : Text
correct = codes "CORRECT"

abbrev pub outcome_verdicts : List Text
outcome_verdicts = correct ∷ codes "INCORRECT" ∷ codes "PARTIAL" ∷ []

pub data Recorded : Type 0 where
  recorded : Outcome → Recorded
  invalid_verdict : Text → Recorded
  unknown_event : Recorded
  storage_raised : Recorded

abbrev pub no_resolution : Resolution
no_resolution = record {
  source = none;
  action = none;
  confidence = none;
  abstained = none;
  shadow = none;
  provenance = none;
}

abbrev pub no_shadow : Shadow
no_shadow = record { action = none; runbook_id = none; agreed = none }

abbrev pub no_provenance : Provenance
no_provenance = record {
  prompt_fingerprint = none;
  doc_outcome = none;
  doc_sha256 = none;
  investigator_path = none;
}

-- What the operator sent.
pub record Request : Type 0 where
  pub event_id : String
  pub verdict : Text
  pub verified_by : Text
  pub verified_at : ℕ
  pub notes : Text
  pub corrected_action : Option Text

abbrev pub outcome_from : Request → Text → Casebook → Resolution → Shadow → Provenance → Outcome
outcome_from request verdict casebook resolution shadow provenance = record {
  event_id = request.event_id;
  verdict = verdict;
  verified_by = request.verified_by;
  verified_at = request.verified_at;
  notes = request.notes;
  service = casebook.service;
  pilot = get_or casebook.pilot false;
  reason_code = casebook.rejection_code;
  enrolment_type = casebook.update_type;
  resolution_source = resolution.source;
  agent_action = resolution.action;
  corrected_action = request.corrected_action;
  confidence = resolution.confidence;
  abstained = get_or resolution.abstained false;
  shadow_action = shadow.action;
  shadow_runbook_id = shadow.runbook_id;
  shadow_agreed = shadow.agreed;
  prompt_fingerprint = provenance.prompt_fingerprint;
  reason_code_doc_outcome = provenance.doc_outcome;
  reason_code_doc_sha256 = provenance.doc_sha256;
  investigator_path = provenance.investigator_path;
}

abbrev pub outcome_of : Request → Text → Casebook → Outcome
outcome_of request verdict casebook =
    let resolution = get_or casebook.resolution no_resolution in
    outcome_from request verdict casebook resolution (get_or resolution.shadow no_shadow)
      (get_or resolution.provenance no_provenance)

-- `str.upper` for ASCII.
abbrev pub upper : ℕ → ℕ
upper c = if contains (codes "abcdefghijklmnopqrstuvwxyz") c then c - 32 else c

unfoldable pub normalised : Text → Text
unfolding strip
normalised verdict = map upper (strip verdict)

pub record OutcomeStore : Type 0 where
  pub casebooks : Disk Casebook
  pub outcomes : Disk Outcome

abbrev pub saved_outcome :
    Outcome → Disk Casebook → Answer (Unit {0}) × Disk Outcome → Recorded × OutcomeStore
saved_outcome outcome casebooks (answered _, outcomes) =
    (recorded outcome, record { casebooks = casebooks; outcomes = outcomes })
saved_outcome outcome casebooks (raised, outcomes) =
    (storage_raised, record { casebooks = casebooks; outcomes = outcomes })

unfoldable pub judged :
    Request
    → Text
    → Answer (Option Casebook) × Disk Casebook
    → Disk Outcome
    → Recorded × OutcomeStore
judged request verdict (raised, casebooks) outcomes =
    (storage_raised, record { casebooks = casebooks; outcomes = outcomes })
judged request verdict (answered none, casebooks) outcomes =
    (unknown_event, record { casebooks = casebooks; outcomes = outcomes })
judged request verdict (answered (some casebook), casebooks) outcomes =
    let outcome = outcome_of request verdict casebook in
    saved_outcome outcome casebooks (save request.event_id outcome outcomes)

unfoldable pub record_outcome : Request → OutcomeStore → Recorded × OutcomeStore
unfolding normalised judged
record_outcome request store =
    let verdict = normalised request.verdict in
    let judgement = judged request verdict (load request.event_id store.casebooks) store.outcomes in
    if contains outcome_verdicts verdict then judgement else (invalid_verdict verdict, store)

-- `outcome_service`, where `pre_registry` is PRE_REGISTRY_PACK of src/utils/service_registry.py.
abbrev pub or_text : Option Text → Text → Text
or_text none d = d
or_text (some []) d = d
or_text (some (c ∷ t)) d = c ∷ t
