-- ===== src/Utils/PacketClaims.antt =====
-- One investigation per packet, src/utils/packet_claims.py. The casebook store that `_is_finished`
-- and `_abandoned_at` read is given by what it answers for the packet: `terminal` and `casebook`.
pub mod Exclusive
pub mod Overlapping
mod Examples
use agentic_resident_crm.Prelude.{
  ℕ, ◌-◌, Bool, true, false, not, ◌&&◌, String, List, [], ◌∷◌, Option, none, some, if◌then◌else◌,
  ltb, leb, ◌==◌, string_eq, get_or, contains,
}
use agentic_resident_crm.Storage.{Disk, Answer, answered, raised, load, save, create_json}

pub record ClaimDoc : Type 0 where
  pub event_id : String
  pub claimed_at : Option ℕ
  pub reclaimed_after_shutdown : Bool
  pub reclaimed_after : Option ℕ

pub data ClaimOutcome : Type 0 where
  fresh reclaimed duplicate finished disabled error : ClaimOutcome

pub record Claim : Type 0 where
  pub won : Bool
  pub outcome : ClaimOutcome
  pub age : Option ℕ

-- The two fields of a casebook that are read.
pub record Casebook : Type 0 where
  pub status : Option String
  pub abandoned_at : Option ℕ

pub record ClaimSettings : Type 0 where
  pub claims_enabled : Bool
  pub claim_ttl : ℕ

-- `TERMINAL_STATUSES` and `REDELIVERABLE_TERMINAL_STATUSES` of src/storage/base.py.
abbrev pub terminal_statuses : List String
terminal_statuses =
    "COMPLETED" ∷ "REJECTED" ∷ "NEEDS_MANUAL_REVIEW" ∷ "FAILED_PERMANENT" ∷ "DLQ" ∷ "FAILED_TIMEOUT"
    ∷ "FAILED_SYNTHESIS_PARSE" ∷ "FAILED_SHUTDOWN" ∷ []

abbrev pub redeliverable_terminal_statuses : List String
redeliverable_terminal_statuses = "FAILED_SHUTDOWN" ∷ []

-- `status in …` of an optional status.
abbrev pub among : List String → Option String → Bool
among statuses none = false
among statuses (some s) = contains statuses s

-- `_is_finished`, from what `terminal_status` answers.
unfoldable pub is_finished : Answer (Option String) → Bool
is_finished raised = false
is_finished (answered status) =
    among terminal_statuses status && not (among redeliverable_terminal_statuses status)

abbrev pub abandoned_of : Option Casebook → Option ℕ
abandoned_of none = none
abandoned_of (some c) =
    if among redeliverable_terminal_statuses c.status then c.abandoned_at else none

-- `_abandoned_at`, from what `load` of the casebook answers.
unfoldable pub abandoned_at : Answer (Option Casebook) → Option ℕ
abandoned_at raised = none
abandoned_at (answered casebook) = abandoned_of casebook

-- `abandoned_at is not None and claimed_at <= abandoned_at`
abbrev pub was_abandoned : Option ℕ → ℕ → Bool
was_abandoned none claimed = false
was_abandoned (some t) claimed = leb claimed t

abbrev pub claimed_at_of : Option ClaimDoc → ℕ
claimed_at_of none = 0
claimed_at_of (some d) = get_or d.claimed_at 0

abbrev pub result : Bool → ClaimOutcome → Option ℕ → Claim
result won outcome age = record { won = won; outcome = outcome; age = age }

-- An error lets the packet through.
unfoldable pub failing_open : Answer Claim → Claim
failing_open (answered c) = c
failing_open raised = result true error none

abbrev pub claim_doc : String → ℕ → Bool → Option ℕ → ClaimDoc
claim_doc event_id now shutdown age = record {
  event_id = event_id;
  claimed_at = some now;
  reclaimed_after_shutdown = shutdown;
  reclaimed_after = age;
}

-- What a delivery has come to once it has read the claim: its answer, or a blind overwrite of the
-- claim that it is still to make.
pub data Step : Type 0 where
  settled : Answer Claim → Step
  takes_over : ℕ → ClaimDoc → Step

abbrev pub taken_over : ℕ → Answer (Unit {0}) × Disk ClaimDoc → Claim × Disk ClaimDoc
taken_over age (answered _, disk) = (result true reclaimed (some age), disk)
taken_over age (raised, disk) = (failing_open raised, disk)

unfoldable pub finish : String → Step → Disk ClaimDoc → Claim × Disk ClaimDoc
finish event_id (settled answer) disk = (failing_open answer, disk)
finish event_id (takes_over age doc) disk = taken_over age (save event_id doc disk)

module _ (settings : ClaimSettings) (terminal : Answer (Option String))
    (casebook : Answer (Option Casebook)) where
  -- From the existing claim on.
  unfoldable pub contest : String → ℕ → Option ClaimDoc → Step
  contest event_id now existing =
      let claimed = claimed_at_of existing in
      let age = now - claimed in
      if was_abandoned (abandoned_at casebook) claimed
      then takes_over age (claim_doc event_id now true none)
      else if is_finished terminal
      then settled (answered (result false finished (some age)))
      else if ltb settings.claim_ttl age
      then takes_over age (claim_doc event_id now false (some age))
      else settled (answered (result false duplicate (some age)))

  unfoldable pub claim_loaded :
      String → ℕ → Answer (Option ClaimDoc) × Disk ClaimDoc → Step × Disk ClaimDoc
  claim_loaded event_id now (raised, disk) = (settled raised, disk)
  claim_loaded event_id now (answered existing, disk) = (contest event_id now existing, disk)

  unfoldable pub claim_created : String → ℕ → Answer Bool × Disk ClaimDoc → Step × Disk ClaimDoc
  claim_created event_id now (answered true, disk) =
      (settled (answered (result true fresh none)), disk)
  claim_created event_id now (answered false, disk) = claim_loaded event_id now (load event_id disk)
  claim_created event_id now (raised, disk) = (settled raised, disk)

  -- `_claim` up to the overwrite of an existing claim: other deliveries may come in between.
  unfoldable pub look : String → ℕ → Disk ClaimDoc → Step × Disk ClaimDoc
  look event_id now disk =
      claim_created event_id now (create_json event_id (claim_doc event_id now false none) disk)

  -- A delivery with no other in between.
  unfoldable pub claim_packet : String → ℕ → Disk ClaimDoc → Claim × Disk ClaimDoc
  claim_packet event_id now disk =
      let (step, after) = look event_id now disk in
      let claimed = finish event_id step after in
      if settings.claims_enabled then claimed else (result true disabled none, disk)
