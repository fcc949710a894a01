-- ===== src/Dlt/Parked/Release.antt =====
-- A whole run of the release worker, `release_ready` of src/dlt/parked.py.
use agentic_resident_crm.Prelude.{
  ℕ, Bool, true, false, Text, List, [], ◌∷◌, Option, length, map, keep, All, ◌≡◌, ◌∙◌, ap, arith,
  Bool-cases, inl, inr, ltb,
}
use agentic_resident_crm.Floats.{Floats}
use agentic_resident_crm.Storage.{Disk}
use agentic_resident_crm.Dlt.Versions.{Operand, lowest}
use agentic_resident_crm.Dlt.AutoReplay.{ReplaySettings, ReplayArgs, ToolOutcome}
use agentic_resident_crm.Dlt.Parked.Entries.{
  Entry, is_parked, entries, list_parked, sort_by_age, insert_by_age, age_key,
}
use agentic_resident_crm.Dlt.Parked.Keeping.{entries-docs}
use agentic_resident_crm.Dlt.Parked.Parking.{ParkSettings}
use agentic_resident_crm.Dlt.Parked.Releasing.{Run, release_listed, release_ready, start}
use agentic_resident_crm.Dlt.Parked.Accounting.{AddsUp, is_due, named_all, release_from-IsRun}

-- A list of entries of which each satisfies a test.
All-insert :
    (e : Entry) (es : List Entry)
    → is_parked e.status ≡ true
    → All (λ (x : Entry). is_parked x.status ≡ true) es
    → All (λ (x : Entry). is_parked x.status ≡ true) (insert_by_age e es)
unfolding insert_by_age
All-insert e [] h hs = (h, tt)
All-insert e (x ∷ xs) h hs = elim (Bool-cases (ltb (age_key x) (age_key e))) [
  | inl older ↦ rw older (hs.0, All-insert e xs h hs.1)
  | inr younger ↦ rw younger (h, hs)
]

All-sort :
    (es : List Entry)
    → All (λ (x : Entry). is_parked x.status ≡ true) es
    → All (λ (x : Entry). is_parked x.status ≡ true) (sort_by_age es)
unfolding sort_by_age
All-sort [] hs = tt
All-sort (x ∷ xs) hs = All-insert x (sort_by_age xs) hs.0 (All-sort xs hs.1)

All-keep :
    (es : List Entry)
    → All (λ (x : Entry). is_parked x.status ≡ true) (keep (λ (x : Entry). is_parked x.status) es)
All-keep [] = tt
All-keep (x ∷ xs) = elim (Bool-cases (is_parked x.status)) [
  | inl p ↦ rw p (p, All-keep xs)
  | inr p ↦ rw p (All-keep xs)
]

list_parked-All :
    (disk : Disk Entry) → All (λ (x : Entry). is_parked x.status ≡ true) (list_parked false disk).0
unfolding list_parked
list_parked-All disk = All-sort _ (All-keep (entries disk).0)

list_parked-docs : (disk : Disk Entry) → (list_parked false disk).1.docs ≡ disk.docs
unfolding list_parked
list_parked-docs disk = entries-docs disk

-- A run of the worker over the entries that it listed.
pub record IsAccounted (floats : Floats) (replay : ReplaySettings floats) (settings : ParkSettings)
    (custom : Text → Option Text) (tool : ReplayArgs → ToolOutcome) (now : ℕ) (dry_run : Bool)
    (running : List Operand) (disk : Disk Entry) (listed : List Entry) (run : Run) : Type 0 where
  pub all_parked : All (λ (x : Entry). is_parked x.status ≡ true) listed
  pub adds_up : AddsUp run.summary
  pub examined_all : run.summary.examined ≡ length listed
  pub sent :
      map (λ (a : ReplayArgs). a.id) run.calls
      ≡ named_all floats replay settings custom tool now dry_run (lowest custom running) (
          keep
            (is_due floats replay settings custom tool now dry_run (lowest custom running))
            listed)
  pub rehearsed : dry_run ≡ true → run.disk.docs ≡ disk.docs

-- A run of the release worker looks only at entries that are parked, examines each of them once,
-- and its counts add up. What it sends to the replay tool are the refIds, those that are not
-- empty, of exactly the entries whose required version the lowest running version is known to have
-- reached and which have waited no longer than they may, in the order of the list. A dry run sends
-- none and changes nothing. All of this holds whatever calls of the store fail.
pub release_ready-IsAccounted :
    (floats : Floats) (replay : ReplaySettings floats) (settings : ParkSettings)
    (custom : Text → Option Text) (tool : ReplayArgs → ToolOutcome) (now : ℕ) (dry_run : Bool)
    (running : List Operand) (disk : Disk Entry)
    → IsAccounted floats replay settings custom tool now dry_run running disk
        (list_parked false disk).0
        (release_ready floats replay settings custom tool now dry_run running disk)
unfolding release_ready release_listed
release_ready-IsAccounted floats replay settings custom tool now dry_run running disk =
    let run =
      release_from-IsRun floats replay settings custom tool now dry_run (lowest custom running)
        (list_parked false disk).0
        (start floats replay settings custom tool now dry_run (lowest custom running)
          (list_parked false disk).1) in
    record {
      all_parked = list_parked-All disk;
      adds_up = run.sums (record { counted = omega arith; listed = omega arith });
      examined_all = run.counts ∙ omega arith;
      sent = run.sent;
      rehearsed = λ d. ap (λ (x : Disk Entry). x.docs) (run.rehearsed d) ∙ list_parked-docs disk;
    }
