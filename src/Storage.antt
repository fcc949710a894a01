-- ===== src/Storage.antt =====
-- The storage contract of src/storage/base.py as its clients see it: one JSON document to a key
-- (the other file names of a key are other stores). A call may raise, and a write that raises may
-- still have been applied: `faults` says what becomes of the next calls, and once it is used up
-- they succeed.
pub mod Laws
use agentic_resident_crm.Prelude.{
  ℕ, Bool, true, false, String, List, [], ◌∷◌, Option, none, some, if◌then◌else◌, lookup, insert,
  map,
}

pub data Fault : Type 0 where
  fine lost late : Fault

pub record Disk (D : Type 0) : Type 0 where
  pub docs : List (String × D)
  pub faults : List Fault

pub data Answer (A : Type 0) : Type 0 where
  answered : A → Answer A
  raised : Answer A

-- A store whose calls all succeed.
abbrev pub calm : {D : Type 0} → List (String × D) → Disk D
calm docs = record { docs = docs; faults = [] }

abbrev pub next_fault : List Fault → Fault
next_fault [] = fine
next_fault (f ∷ fs) = f

abbrev pub later_faults : List Fault → List Fault
later_faults [] = []
later_faults (f ∷ fs) = fs

module _ {D : Type 0} where
  abbrev pub spent : Disk D → Disk D
  spent disk = record disk { faults = later_faults disk.faults }

  unfoldable pub load_by : Fault → String → Disk D → Answer (Option D) × Disk D
  load_by fine key disk = (answered (lookup key disk.docs), disk)
  load_by lost key disk = (raised, disk)
  load_by late key disk = (raised, disk)

  -- `load(key, filename)`
  unfoldable pub load : String → Disk D → Answer (Option D) × Disk D
  unfolding load_by
  load key disk = load_by (next_fault disk.faults) key (spent disk)

  abbrev pub with_doc : String → D → Disk D → Disk D
  with_doc key doc disk = record disk { docs = insert key doc disk.docs }

  unfoldable pub save_by : Fault → String → D → Disk D → Answer (Unit {0}) × Disk D
  save_by fine key doc disk = (answered tt, with_doc key doc disk)
  save_by lost key doc disk = (raised, disk)
  save_by late key doc disk = (raised, with_doc key doc disk)

  -- `save(key, document, filename)`, a blind write.
  unfoldable pub save : String → D → Disk D → Answer (Unit {0}) × Disk D
  unfolding save_by
  save key doc disk = save_by (next_fault disk.faults) key doc (spent disk)

  unfoldable pub create_absent : Fault → String → D → Disk D → Answer Bool × Disk D
  create_absent fine key doc disk = (answered true, with_doc key doc disk)
  create_absent lost key doc disk = (raised, disk)
  create_absent late key doc disk = (raised, with_doc key doc disk)

  unfoldable pub create_present : Fault → Disk D → Answer Bool × Disk D
  create_present fine disk = (answered false, disk)
  create_present lost disk = (raised, disk)
  create_present late disk = (raised, disk)

  unfoldable pub create_by : Option D → Fault → String → D → Disk D → Answer Bool × Disk D
  unfolding create_absent create_present
  create_by none fault key doc disk = create_absent fault key doc disk
  create_by (some old) fault key doc disk = create_present fault disk

  -- `create_json(key, filename, document)`: writes only where there is no document.
  unfoldable pub create_json : String → D → Disk D → Answer Bool × Disk D
  unfolding create_by
  create_json key doc disk =
      create_by (lookup key disk.docs) (next_fault disk.faults) key doc (spent disk)

  unfoldable pub list_by : Fault → Disk D → Answer (List String) × Disk D
  list_by fine disk = (answered (map (λ (e : String × D). e.0) disk.docs), disk)
  list_by lost disk = (raised, disk)
  list_by late disk = (raised, disk)

  -- `list_events()`
  unfoldable pub list_events : Disk D → Answer (List String) × Disk D
  unfolding list_by
  list_events disk = list_by (next_fault disk.faults) (spent disk)
