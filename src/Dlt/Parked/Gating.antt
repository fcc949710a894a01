-- ===== src/Dlt/Parked/Gating.antt =====
-- Parking takes all that a replay takes, minus the version (src/dlt/parked.py).
use agentic_resident_crm.Prelude.{
  ℕ, true, false, String, Option, none, some, ◌≡◌, ◌⊎◌, refl, arith, Bool-cases, inl, inr,
}
use agentic_resident_crm.Floats.{Floats}
use agentic_resident_crm.Storage.{Disk}
use agentic_resident_crm.Dlt.Findings.{DltFinding, truthy, CheckVerdict, not_deployed}
use agentic_resident_crm.Dlt.AutoReplay.{ReplaySettings, CodeCheck, decide}
use agentic_resident_crm.Dlt.AutoReplay.Gate.{decide-veto_only, decide_iff, Qualifies}
use agentic_resident_crm.Dlt.Parked.Entries.{Entry}
use agentic_resident_crm.Dlt.Parked.Parking.{
  ParkSettings, is_not_deployed, would_replay_but_for_the_version, maybe_park,
}

module _ (settings : ParkSettings) (now : ℕ) (meanwhile : Disk Entry → Disk Entry) (floats : Floats)
    (replay : ReplaySettings floats) where
  -- Why a packet is in the queue, and why it was not replayed at once.
  pub record IsHeldBack (finding : DltFinding floats) (ref_id : Option String)
      (check : Option CodeCheck) : Type 0 where
    pub parking : settings.park_enabled ≡ true
    pub precheck : CodeCheck
    pub checked : check ≡ some precheck
    pub awaits_deploy : precheck.verdict ≡ not_deployed
    pub otherwise : Qualifies floats replay finding ref_id none
    pub not_now : (decide floats replay finding ref_id check).should_replay ≡ false

  not_deployed_of :
      (v : CheckVerdict)
      → is_not_deployed settings now meanwhile floats replay v ≡ true
      → v ≡ not_deployed
  not_deployed_of v h = ground arith

  would-IsHeldBack :
      (finding : DltFinding floats) (ref_id : Option String) (check : Option CodeCheck)
      → settings.park_enabled ≡ true
      → would_replay_but_for_the_version settings now meanwhile floats replay finding ref_id check
        ≡ true
      → IsHeldBack finding ref_id check
  unfolding would_replay_but_for_the_version
  would-IsHeldBack finding ref_id none on h = cc
  would-IsHeldBack finding ref_id (some c) on h =
      let (undeployed, gates, replays) = parts in
      let v = not_deployed_of c.verdict undeployed in
      record {
        parking = on;
        precheck = c;
        checked = refl;
        awaits_deploy = v;
        otherwise = (decide_iff floats replay finding ref_id none).0 replays;
        not_now = rw (decide-veto_only floats replay finding ref_id c) (ground arith);
      }
    where
      parts :
          (is_not_deployed settings now meanwhile floats replay c.verdict ≡ true)
          × (replay.code_check_gates_replay ≡ true)
          × ((decide floats replay finding ref_id none).should_replay ≡ true)
      parts = ground arith

  -- The queue changes, or a packet is reported as waiting, only for a packet that the replay gate
  -- would have let through without the precheck, whose precheck says that the change is not
  -- deployed, and which is not replayed now. Any other call leaves the queue as it was, and
  -- reports that the packet does not wait.
  pub maybe_park-IsHeldBack :
      (case_id : String) (finding : DltFinding floats) (ref_id : Option String)
      (check : Option CodeCheck) (disk : Disk Entry)
      → let (result, after) =
          maybe_park settings now meanwhile floats replay case_id ref_id check finding disk in
        IsHeldBack finding ref_id check ⊎ (after ≡ disk) × (result.is_waiting ≡ false)
  unfolding maybe_park
  maybe_park-IsHeldBack case_id finding ref_id check disk =
      elim (Bool-cases settings.park_enabled) [
        | inr off ↦ inr (ground arith, ground arith)
        | inl on ↦ elim (Bool-cases (truthy ref_id)) [
          | inr nameless ↦ inr (ground arith, ground arith)
          | inl named ↦
              elim (Bool-cases (
                would_replay_but_for_the_version settings now meanwhile floats replay finding ref_id
                  check)) [
                    | inl would ↦ inl (would-IsHeldBack finding ref_id check on would)
                    | inr wouldnt ↦ inr (ground arith, ground arith)
                  ]
        ]
      ]
