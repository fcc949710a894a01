-- ===== src/Dlt/Parked/Parking.antt =====
-- `would_replay_but_for_the_version`, `park` and `maybe_park` of src/dlt/parked.py.
use agentic_resident_crm.Prelude.{
  ℕ, Bool, true, false, not, ◌&&◌, String, Text, ◌∷◌, Option, none, some, if◌then◌else◌, leb,
  length, keep,
}
use agentic_resident_crm.Floats.{Floats}
use agentic_resident_crm.Storage.{Disk, Answer, answered, raised, load, create_json}
use agentic_resident_crm.Dlt.Findings.{DltFinding, Action, truthy, CheckVerdict, not_deployed}
use agentic_resident_crm.Dlt.AutoReplay.{ReplaySettings, CodeCheck, decide}
use agentic_resident_crm.Dlt.Parked.Entries.{
  Status, parked, Entry, is_parked, usable_key, read_entry, entries,
}

pub record ParkSettings : Type 0 where
  pub park_enabled : Bool
  pub cap : ℕ
  pub ttl_seconds : ℕ

pub data ParkReason : Type 0 where
  parking_off nothing_to_replay not_going_to_replay : ParkReason
  no_version_named unusable_case_id queue_full write_failed : ParkReason
  waiting_for : Text → ParkReason
  already_waiting : Option Text → ParkReason
  already_finished : Option Status → ParkReason

pub record ParkResult : Type 0 where
  pub is_waiting : Bool
  pub reason : ParkReason
  pub version_awaited : Option Text

abbrev pub declined : ParkReason → ParkResult
declined reason = record { is_waiting = false; reason = reason; version_awaited = none }

unfoldable pub already_parked : Entry → ParkResult
already_parked e =
    if is_parked e.status
    then record {
      is_waiting = true;
      reason = already_waiting e.required_version;
      version_awaited = e.required_version;
    }
    else declined (already_finished e.status)

-- The truth value of an optional version.
abbrev pub named_version : Option Text → Option Text
named_version (some (c ∷ t)) = some (c ∷ t)
named_version _ = none

abbrev pub action_of : {floats : Floats} → Option (DltFinding floats) → Option Action
action_of none = none
action_of (some f) = some f.action

abbrev pub new_entry : String → String → CodeCheck → Text → Option Action → ℕ → Entry
new_entry case_id ref check required action now = record {
  case_id = some case_id;
  ref_id = some ref;
  required_version = some required;
  baseline_version = check.baseline_version;
  running_version_when_parked = check.running_version;
  repo = check.repo;
  path = check.path;
  action = action;
  parked_at = some now;
  status = some parked;
  expired_at = none;
  released_at = none;
  released_at_version = none;
  release_result = none;
  last_release_attempt_at = none;
  last_release_result = none;
}

abbrev pub entry_or : Option Entry → Entry → Entry
entry_or none d = d
entry_or (some e) d = e

-- What `park` reports after `create_json`.
unfoldable pub created : String → Text → Entry → Answer Bool × Disk Entry → ParkResult × Disk Entry
created case_id required entry (answered true, disk) = (
  record { is_waiting = true; reason = waiting_for required; version_awaited = some required },
  disk,
)
created case_id required entry (answered false, disk) =
    let (answer, disk') = load case_id disk in
    (already_parked (entry_or (read_entry answer) entry), disk')
created case_id required entry (raised, disk) = (declined write_failed, disk)

module _ (settings : ParkSettings) (now : ℕ) (meanwhile : Disk Entry → Disk Entry) where
  -- From the count of the queue on. `meanwhile` is what the other pods do between the reads and
  -- the write.
  unfoldable pub park_new : String → Text → Entry → Disk Entry → ParkResult × Disk Entry
  park_new case_id required entry disk =
      let (all, disk') = entries disk in
      if leb settings.cap (length (keep (λ e. is_parked e.status) all))
      then (declined queue_full, disk')
      else created case_id required entry (create_json case_id entry (meanwhile disk'))

  unfoldable pub park_found :
      Option Entry → String → Text → Entry → Disk Entry → ParkResult × Disk Entry
  park_found (some e) case_id required entry disk = (already_parked e, disk)
  park_found none case_id required entry disk = park_new case_id required entry disk

  unfoldable pub park_ref :
      String
      → Option String
      → CodeCheck
      → Text
      → Option Action
      → Disk Entry
      → ParkResult × Disk Entry
  park_ref case_id none check required action disk = (declined nothing_to_replay, disk)
  park_ref case_id (some ref) check required action disk =
      let (answer, disk') = load case_id disk in
      if truthy (some ref)
      then park_found (read_entry answer) case_id required
          (new_entry case_id ref check required action now) disk'
      else (declined nothing_to_replay, disk)

  unfoldable pub park_version :
      String
      → Option String
      → CodeCheck
      → Option Text
      → Option Action
      → Disk Entry
      → ParkResult × Disk Entry
  park_version case_id ref_id check none action disk = (declined no_version_named, disk)
  park_version case_id ref_id check (some required) action disk =
      if usable_key case_id
      then park_ref case_id ref_id check required action disk
      else (declined unusable_case_id, disk)

  unfoldable pub park :
      String → Option String → CodeCheck → Option Action → Disk Entry → ParkResult × Disk Entry
  park case_id ref_id check action disk =
      park_version case_id ref_id check (named_version check.required_version) action disk

  module _ (floats : Floats) (replay : ReplaySettings floats) where
    abbrev pub is_not_deployed : CheckVerdict → Bool
    is_not_deployed not_deployed = true
    is_not_deployed _ = false

    unfoldable pub would_replay_but_for_the_version :
        DltFinding floats → Option String → Option CodeCheck → Bool
    would_replay_but_for_the_version finding ref_id none = false
    would_replay_but_for_the_version finding ref_id (some check) =
        is_not_deployed check.verdict
        && (replay.code_check_gates_replay
            && (decide floats replay finding ref_id none).should_replay)

    unfoldable pub park_checked :
        String
        → Option String
        → Option CodeCheck
        → DltFinding floats
        → Disk Entry
        → ParkResult × Disk Entry
    park_checked case_id ref_id none finding disk = (declined not_going_to_replay, disk)
    park_checked case_id ref_id (some check) finding disk =
        park case_id ref_id check (some finding.action) disk

    unfoldable pub maybe_park :
        String
        → Option String
        → Option CodeCheck
        → DltFinding floats
        → Disk Entry
        → ParkResult × Disk Entry
    maybe_park case_id ref_id check finding disk =
        if not settings.park_enabled
        then (declined parking_off, disk)
        else if not (truthy ref_id)
        then (declined nothing_to_replay, disk)
        else if not (would_replay_but_for_the_version finding ref_id check)
        then (declined not_going_to_replay, disk)
        else park_checked case_id ref_id check finding disk
