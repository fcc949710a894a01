-- ===== src/Utils/Outcomes/Judging.antt =====
-- What recording a verdict writes, and when (src/utils/outcomes.py).
use agentic_resident_crm.Prelude.{
  Bool, true, false, get_or, sym, subst, String, Text, text_eq, Option, none, some, if◌then◌else◌,
  contains, lookup, insert, ◌≡◌, inl, inr, refl, Bool-cases,
}
use agentic_resident_crm.Storage.{Disk, Answer, answered, raised, load, save}
use agentic_resident_crm.Storage.Laws.{load-answered, save-saved}
use agentic_resident_crm.Utils.Outcomes.Recording.{
  Outcome, Casebook, Resolution, Shadow, Provenance, no_shadow, no_provenance, Request,
  OutcomeStore, Recorded, recorded, invalid_verdict, unknown_event, outcome_of, outcome_verdicts,
  normalised, saved_outcome, judged, record_outcome,
}

-- What the operator says, as it is recorded.
pub record IsSaid (request : Request) (o : Outcome) : Type 0 where
  pub event : o.event_id ≡ request.event_id
  pub verdict : o.verdict ≡ normalised request.verdict
  pub by : o.verified_by ≡ request.verified_by
  pub at : o.verified_at ≡ request.verified_at
  pub notes : o.notes ≡ request.notes
  pub corrected : o.corrected_action ≡ request.corrected_action

-- What a part that may be missing says of one of its fields.
abbrev pub of_part : {A B : Type 0} → (A → Option B) → Option A → Option B
of_part field none = none
of_part field (some part) = field part

-- What the casebook says, as it is recorded; a part that is missing says nothing.
pub record IsCopied (casebook : Casebook) (o : Outcome) : Type 0 where
  pub service : o.service ≡ casebook.service
  pub pilot : o.pilot ≡ get_or casebook.pilot false
  pub code : o.reason_code ≡ casebook.rejection_code
  pub enrolment : o.enrolment_type ≡ casebook.update_type
  pub source : o.resolution_source ≡ of_part (λ r. r.source) casebook.resolution
  pub action : o.agent_action ≡ of_part (λ r. r.action) casebook.resolution
  pub confidence : o.confidence ≡ of_part (λ r. r.confidence) casebook.resolution
  pub abstained : o.abstained ≡ get_or (of_part (λ r. r.abstained) casebook.resolution) false
  pub shadow_action :
      o.shadow_action ≡ of_part (λ r. of_part (λ s. s.action) r.shadow) casebook.resolution
  pub shadow_runbook :
      o.shadow_runbook_id ≡ of_part (λ r. of_part (λ s. s.runbook_id) r.shadow) casebook.resolution
  pub shadow_agreed :
      o.shadow_agreed ≡ of_part (λ r. of_part (λ s. s.agreed) r.shadow) casebook.resolution
  pub fingerprint :
      o.prompt_fingerprint
      ≡ of_part (λ r. of_part (λ p. p.prompt_fingerprint) r.provenance) casebook.resolution
  pub doc_outcome :
      o.reason_code_doc_outcome
      ≡ of_part (λ r. of_part (λ p. p.doc_outcome) r.provenance) casebook.resolution
  pub doc_sha256 :
      o.reason_code_doc_sha256
      ≡ of_part (λ r. of_part (λ p. p.doc_sha256) r.provenance) casebook.resolution
  pub path :
      o.investigator_path
      ≡ of_part (λ r. of_part (λ p. p.investigator_path) r.provenance) casebook.resolution

shadow_of :
    {B : Type 0} (field : Shadow → Option B) (s : Option Shadow)
    → field no_shadow ≡ none
    → field (get_or s no_shadow) ≡ of_part field s
shadow_of field none h = h
shadow_of field (some s) h = refl

provenance_of :
    {B : Type 0} (field : Provenance → Option B) (p : Option Provenance)
    → field no_provenance ≡ none
    → field (get_or p no_provenance) ≡ of_part field p
provenance_of field none h = h
provenance_of field (some p) h = refl

outcome_of-IsCopied :
    (request : Request) (verdict : Text) (casebook : Casebook) (r : Option Resolution)
    → casebook.resolution ≡ r
    → IsCopied casebook (outcome_of request verdict casebook)
outcome_of-IsCopied request verdict casebook none e = record {
  service = refl;
  pilot = refl;
  code = refl;
  enrolment = refl;
  source = rw e refl;
  action = rw e refl;
  confidence = rw e refl;
  abstained = rw e refl;
  shadow_action = rw e refl;
  shadow_runbook = rw e refl;
  shadow_agreed = rw e refl;
  fingerprint = rw e refl;
  doc_outcome = rw e refl;
  doc_sha256 = rw e refl;
  path = rw e refl;
}
outcome_of-IsCopied request verdict casebook (some r) e = record {
  service = refl;
  pilot = refl;
  code = refl;
  enrolment = refl;
  source = rw e refl;
  action = rw e refl;
  confidence = rw e refl;
  abstained = rw e refl;
  shadow_action = rw e (shadow_of (λ s. s.action) r.shadow refl);
  shadow_runbook = rw e (shadow_of (λ s. s.runbook_id) r.shadow refl);
  shadow_agreed = rw e (shadow_of (λ s. s.agreed) r.shadow refl);
  fingerprint = rw e (provenance_of (λ p. p.prompt_fingerprint) r.provenance refl);
  doc_outcome = rw e (provenance_of (λ p. p.doc_outcome) r.provenance refl);
  doc_sha256 = rw e (provenance_of (λ p. p.doc_sha256) r.provenance refl);
  path = rw e (provenance_of (λ p. p.investigator_path) r.provenance refl);
}

-- The outcome has a known verdict, is about a casebook that is there, says what the operator and
-- the casebook say, and is what is stored.
pub record IsGrounded (request : Request) (store : OutcomeStore) (o : Outcome)
    (after : OutcomeStore) : Type 0 where
  pub casebook : Casebook
  pub known : contains outcome_verdicts (normalised request.verdict) ≡ true
  pub there : lookup request.event_id store.casebooks.docs ≡ some casebook
  pub said : IsSaid request o
  pub copied : IsCopied casebook o
  pub stored : after.outcomes.docs ≡ insert request.event_id o store.outcomes.docs

saved_outcome-stored :
    (event_id : String) (o p : Outcome) (casebooks : Disk Casebook) (outcomes : Disk Outcome)
    (r : Answer (Unit {0}) × Disk Outcome)
    → (r.0 ≡ answered tt → r.1.docs ≡ insert event_id p outcomes.docs)
    → (saved_outcome p casebooks r).0 ≡ recorded o
    → (o ≡ p) × ((saved_outcome p casebooks r).1.outcomes.docs ≡ insert event_id p outcomes.docs)
saved_outcome-stored event_id o p casebooks outcomes (answered tt, after) done h = (cc, done refl)
saved_outcome-stored event_id o p casebooks outcomes (raised, after) done h = cc

judged-IsGrounded :
    (request : Request) (store : OutcomeStore) (o : Outcome)
    (r : Answer (Option Casebook) × Disk Casebook)
    → contains outcome_verdicts (normalised request.verdict) ≡ true
    → ((c : Option Casebook) → r.0 ≡ answered c → lookup request.event_id store.casebooks.docs ≡ c)
    → (judged request (normalised request.verdict) r store.outcomes).0 ≡ recorded o
    → IsGrounded request store o (judged request (normalised request.verdict) r store.outcomes).1
unfolding judged
judged-IsGrounded request store o (raised, casebooks) known there h = cc
judged-IsGrounded request store o (answered none, casebooks) known there h = cc
judged-IsGrounded request store o (answered (some casebook), casebooks) known there h =
    let p = outcome_of request (normalised request.verdict) casebook in
    let (same, stored) =
      saved_outcome-stored request.event_id o p casebooks store.outcomes
        (save request.event_id p store.outcomes) (save-saved request.event_id p store.outcomes) h in
    record {
      casebook = casebook;
      known = known;
      there = there (some casebook) refl;
      said = subst (IsSaid request) (sym same) (record {
        event = refl;
        verdict = refl;
        by = refl;
        at = refl;
        notes = refl;
        corrected = refl;
      });
      copied = subst (IsCopied casebook) (sym same) (
          outcome_of-IsCopied request (normalised request.verdict) casebook casebook.resolution
            refl);
      stored = rw same stored;
    }

-- A verdict that is reported recorded is one of the known ones once its spaces are cut and its
-- letters raised, is on an event whose casebook is in the store, carries what the operator sent and,
-- field by field, what that casebook says of the resolution, and is what the store now holds for the event, all other outcomes as before.
pub record_outcome-IsGrounded :
    (request : Request) (store : OutcomeStore) (o : Outcome)
    → (record_outcome request store).0 ≡ recorded o
    → IsGrounded request store o (record_outcome request store).1
unfolding record_outcome
record_outcome-IsGrounded request store o =
    by_test (contains outcome_verdicts (normalised request.verdict)) refl
  where
    judgement : Recorded × OutcomeStore
    judgement =
        judged request (normalised request.verdict) (load request.event_id store.casebooks)
          store.outcomes

    by_test :
        (b : Bool)
        → contains outcome_verdicts (normalised request.verdict) ≡ b
        → (if b then judgement else (invalid_verdict (normalised request.verdict), store)).0
          ≡ recorded o
        → IsGrounded request store o
            (if b then judgement else (invalid_verdict (normalised request.verdict), store)).1
    by_test false unknown h = cc
    by_test true known h =
        judged-IsGrounded request store o (load request.event_id store.casebooks) known
          (λ c e. load-answered request.event_id c store.casebooks e) h

abbrev pub is_refusal : Recorded → Bool
is_refusal (invalid_verdict _) = true
is_refusal unknown_event = true
is_refusal _ = false

judged-refused :
    (request : Request) (verdict : Text) (r : Answer (Option Casebook) × Disk Casebook)
    (outcomes : Disk Outcome)
    → is_refusal (judged request verdict r outcomes).0 ≡ true
    → (judged request verdict r outcomes).1.outcomes ≡ outcomes
unfolding judged
judged-refused request verdict (raised, casebooks) outcomes = λ h. refl
judged-refused request verdict (answered none, casebooks) outcomes = λ h. refl
judged-refused request verdict (answered (some casebook), casebooks) outcomes =
    never (save request.event_id (outcome_of request verdict casebook) outcomes)
  where
    never :
        (r : Answer (Unit {0}) × Disk Outcome)
        → is_refusal (saved_outcome (outcome_of request verdict casebook) casebooks r).0 ≡ true
        → (saved_outcome (outcome_of request verdict casebook) casebooks r).1.outcomes ≡ outcomes
    never (answered tt, after) h = cc
    never (raised, after) h = cc

-- A refused verdict, unknown or on an event that has no casebook, leaves the outcomes as they are.
pub record_outcome-refused :
    (request : Request) (store : OutcomeStore)
    → is_refusal (record_outcome request store).0 ≡ true
    → (record_outcome request store).1.outcomes ≡ store.outcomes
unfolding record_outcome
record_outcome-refused request store =
    elim (Bool-cases (contains outcome_verdicts (normalised request.verdict))) [
      | inl known ↦ rw known (
          judged-refused request (normalised request.verdict)
            (load request.event_id store.casebooks) store.outcomes)
      | inr unknown ↦ rw unknown (λ h. refl)
    ]
