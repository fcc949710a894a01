-- ===== src/Dlt/Parked/Releasing.antt =====
-- `_mark`, `_outcome` and `release_ready` of src/dlt/parked.py.
use agentic_resident_crm.Prelude.{
  ℕ, ◌+◌, ◌-◌, Bool, true, false, ◌&&◌, String, Text, List, [], ◌∷◌, ◌++◌, Option, none, some,
  if◌then◌else◌, ltb,
}
use agentic_resident_crm.Floats.{Floats}
use agentic_resident_crm.Storage.{Disk, save}
use agentic_resident_crm.Dlt.Versions.{Version, Operand, absent, text, version, at_least, lowest}
use agentic_resident_crm.Dlt.AutoReplay.{ReplaySettings, ReplayArgs, ToolOutcome, Attempt, attempt}
use agentic_resident_crm.Dlt.Parked.Entries.{released, expired, Entry, list_parked}
use agentic_resident_crm.Dlt.Parked.Parking.{ParkSettings}

-- The outcome of one entry in a run of the release worker.
pub data Fate : Type 0 where
  is_expired is_unknown is_waiting is_released is_failed : Fate

pub record Line : Type 0 where
  pub case_id : Option String
  pub ref_id : Option String
  pub fate : Fate

pub record Summary : Type 0 where
  pub examined : ℕ
  pub released : ℕ
  pub failed : ℕ
  pub expired : ℕ
  pub waiting : ℕ
  pub unknown : ℕ
  pub entries : List Line

-- The state of the loop: the store, the summary, and the calls that have reached the replay tool.
pub record Run : Type 0 where
  pub disk : Disk Entry
  pub summary : Summary
  pub calls : List ReplayArgs

abbrev pub case_key : Option String → String
case_key none = ""
case_key (some s) = s

-- `_mark`: a blind write whose failure is logged.
unfoldable pub mark : Entry → Disk Entry → Disk Entry
mark updated disk = (save (case_key updated.case_id) updated disk).1

unfoldable pub tally : Fate → Entry → Summary → Summary
tally fate e s =
    let t = record s {
      examined = s.examined + 1;
      entries = s.entries ++ record { case_id = e.case_id; ref_id = e.ref_id; fate = fate } ∷ [];
    } in
    elim fate [
      | is_expired ↦ record t { expired = s.expired + 1 }
      | is_unknown ↦ record t { unknown = s.unknown + 1 }
      | is_waiting ↦ record t { waiting = s.waiting + 1 }
      | is_released ↦ record t { released = s.released + 1 }
      | is_failed ↦ record t { failed = s.failed + 1 }
    ]

abbrev pub version_operand : Option Version → Operand
version_operand none = absent
version_operand (some v) = version v

abbrev pub text_operand : Option Text → Operand
text_operand none = absent
text_operand (some t) = text t

abbrev pub raw_of : Option Version → Option Text
raw_of none = none
raw_of (some v) = some v.raw

-- `float(entry.get("parked_at") or now)`
abbrev pub since : ℕ → Option ℕ → ℕ
since now none = now
since now (some t) = if ltb 0 t then t else now

module _ (floats : Floats) (replay : ReplaySettings floats) (settings : ParkSettings)
    (custom : Text → Option Text) (tool : ReplayArgs → ToolOutcome) (now : ℕ) (dry_run : Bool)
    (running : Option Version) where
  -- Older than the time that an entry may wait; a clock that went back makes no entry old.
  unfoldable pub is_overdue : Entry → Bool
  is_overdue e =
      ltb 0 settings.ttl_seconds && ltb settings.ttl_seconds (now - since now e.parked_at)

  unfoldable pub expire : Entry → Run → Run
  expire e run = record run {
    summary = tally is_expired e run.summary;
    disk =
        if dry_run
        then run.disk
        else mark (record e { status = some expired; expired_at = some now }) run.disk;
  }

  unfoldable pub attempted : Entry → Attempt × List ReplayArgs → Run → Run
  attempted e (outcome, calls) run =
      if outcome.queued
      then record {
        summary = tally is_released e run.summary;
        calls = calls;
        disk =
            mark
              (record e {
                status = some released;
                released_at = some now;
                released_at_version = raw_of running;
                release_result = some outcome.result;
              })
              run.disk;
      }
      else record {
        summary = tally is_failed e run.summary;
        calls = calls;
        disk =
            mark
              (record e {
                last_release_attempt_at = some now;
                last_release_result = some outcome.result;
              })
              run.disk;
      }

  unfoldable pub release_if : Option Bool → Entry → Run → Run
  release_if none e run = record run { summary = tally is_unknown e run.summary }
  release_if (some false) e run = record run { summary = tally is_waiting e run.summary }
  release_if (some true) e run =
      if dry_run
      then record run { summary = tally is_released e run.summary }
      else attempted e (attempt floats replay tool e.ref_id run.calls) run

  abbrev pub satisfied : Entry → Option Bool
  satisfied e = at_least custom (version_operand running) (text_operand e.required_version)

  -- The body of the loop.
  unfoldable pub release_one : Entry → Run → Run
  release_one e run = if is_overdue e then expire e run else release_if (satisfied e) e run

  unfoldable pub release_from : List Entry → Run → Run
  release_from [] run = run
  release_from (e ∷ es) run = release_from es (release_one e run)

  abbrev pub start : Disk Entry → Run
  start disk = record {
    disk = disk;
    summary = record {
      examined = 0;
      released = 0;
      failed = 0;
      expired = 0;
      waiting = 0;
      unknown = 0;
      entries = [];
    };
    calls = [];
  }

  unfoldable pub release_listed : List Entry × Disk Entry → Run
  release_listed (listed, disk) = release_from listed (start disk)

-- `release_ready(running_versions, dry_run)`; `lowest` of no reading is none.
unfoldable pub release_ready :
    (floats : Floats)
    → ReplaySettings floats
    → ParkSettings
    → (Text → Option Text)
    → (ReplayArgs → ToolOutcome)
    → ℕ
    → Bool
    → List Operand
    → Disk Entry
    → Run
release_ready floats replay settings custom tool now dry_run running_versions disk =
    release_listed floats replay settings custom tool now dry_run (lowest custom running_versions)
      (list_parked false disk)
