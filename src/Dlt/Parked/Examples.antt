-- ===== src/Dlt/Parked/Examples.antt =====
-- The parked replays of src/dlt/parked.py at sample queues.
use agentic_resident_crm.Prelude.{
  true, false, Text, codes, List, [], ◌∷◌, Option, none, some, lookup, ◌≡◌, ◌⊎◌, refl,
}
use agentic_resident_crm.Storage.{Disk, calm, late}
use agentic_resident_crm.Dlt.Versions.{Operand, text}
use agentic_resident_crm.Dlt.Samples.{percent, replaying, finding, not_yet, accepting}
use agentic_resident_crm.Dlt.Parked.Entries.{Entry, Status, list_parked}
use agentic_resident_crm.Dlt.Parked.Parking.{ParkSettings, park, maybe_park}
use agentic_resident_crm.Dlt.Parked.Releasing.{release_ready}
use agentic_resident_crm.Dlt.Parked.Keeping.{IsCreateOnly, park-keeps}
use agentic_resident_crm.Dlt.Parked.Gating.{IsHeldBack, maybe_park-IsHeldBack}
use agentic_resident_crm.Dlt.Parked.Release.{IsAccounted, release_ready-IsAccounted}

abbrev settings : ParkSettings
settings = record { park_enabled = true; cap = 500; ttl_seconds = 2592000 }

abbrev alone : Disk Entry → Disk Entry
alone disk = disk

alone-IsCreateOnly : IsCreateOnly alone
alone-IsCreateOnly = record { keeps = λ k e disk h. h }

abbrev entry : Option Status → Entry
entry status = record {
  case_id = some "dlt-1";
  ref_id = some "ref-1";
  required_version = some (codes "1.0.3");
  baseline_version = none;
  running_version_when_parked = none;
  repo = none;
  path = none;
  action = none;
  parked_at = some 10;
  status = status;
  expired_at = none;
  released_at = none;
  released_at_version = none;
  release_result = none;
  last_release_attempt_at = none;
  last_release_result = none;
}

-- The packet was released, and parking it again meets a write that fails late.
park-keeps_example :
    lookup "dlt-1"
      (park settings 20 alone "dlt-1" (some "ref-1") not_yet none (record {
        docs = ("dlt-1", entry (some Status.released)) ∷ [];
        faults = late ∷ late ∷ late ∷ [];
      })).1.docs
    ≡ some (entry (some Status.released))
park-keeps_example =
    park-keeps settings 20 alone "dlt-1" (some "ref-1") not_yet none
      (record {
        docs = ("dlt-1", entry (some Status.released)) ∷ [];
        faults = late ∷ late ∷ late ∷ [];
      })
      "dlt-1" (entry (some Status.released)) alone-IsCreateOnly refl

maybe_park-IsHeldBack_example :
    let (result, after) =
      maybe_park settings 20 alone percent replaying "dlt-1"
        (some "ref-1")
        (some not_yet)
        (finding none 80)
        (calm []) in
    IsHeldBack settings 20 alone percent replaying (finding none 80) (some "ref-1") (some not_yet)
    ⊎ (after ≡ calm []) × (result.is_waiting ≡ false)
maybe_park-IsHeldBack_example =
    maybe_park-IsHeldBack settings 20 alone percent replaying "dlt-1" (finding none 80)
      (some "ref-1") (some not_yet) (calm [])

abbrev queue : Disk Entry
queue = calm (("dlt-1", entry (some Status.parked)) ∷ [])

abbrev running : List Operand
running = text (codes "1.0.4") ∷ []

abbrev plain : Text → Option Text
plain t = none

release_ready-IsAccounted_example :
    IsAccounted percent replaying settings plain accepting 20 false running queue
      (list_parked false queue).0
      (release_ready percent replaying settings plain accepting 20 false running queue)
release_ready-IsAccounted_example =
    release_ready-IsAccounted percent replaying settings plain accepting 20 false running queue
