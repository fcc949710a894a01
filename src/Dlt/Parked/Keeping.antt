-- ===== src/Dlt/Parked/Keeping.antt =====
-- Parking is create-only, and what it reports is in the store (src/dlt/parked.py).
use agentic_resident_crm.Prelude.{
  ℕ, Bool, true, false, String, Text, List, [], ◌∷◌, Option, none, some, leb, length, keep, lookup,
  ◌≡◌, ◌∙◌, refl, Bool-cases, inl, inr,
}
use agentic_resident_crm.Storage.{Disk, Answer, answered, raised, load, create_json, list_events}
use agentic_resident_crm.Storage.Laws.{load-docs, list_events-docs, create_json-keeps}
use agentic_resident_crm.Dlt.Findings.{Action, truthy}
use agentic_resident_crm.Dlt.AutoReplay.{CodeCheck}
use agentic_resident_crm.Dlt.Parked.Entries.{
  Entry, is_parked, read_entry, entries_from, entries, keys_of, usable_key,
}
use agentic_resident_crm.Dlt.Parked.Parking.{
  ParkSettings, created, park_new, park_found, park_ref, park_version, park, new_entry,
  named_version,
}

abbrev Docs : Type 0
Docs = List (String × Entry)

entries_from-docs :
    (keys : List String) (disk : Disk Entry) → (entries_from keys disk).1.docs ≡ disk.docs
unfolding entries_from
entries_from-docs [] disk = refl
entries_from-docs (key ∷ keys) disk = entries_from-docs keys (load key disk).1 ∙ load-docs key disk

-- Reading the queue changes nothing in it.
pub entries-docs : (disk : Disk Entry) → (entries disk).1.docs ≡ disk.docs
unfolding entries
entries-docs disk =
    entries_from-docs (keys_of (list_events disk).0) (list_events disk).1 ∙ list_events-docs disk

-- The other pods, too, only create entries.
pub record IsCreateOnly (meanwhile : Disk Entry → Disk Entry) : Type 0 where
  pub keeps :
      (k : String) (e : Entry) (disk : Disk Entry)
      → lookup k disk.docs ≡ some e
      → lookup k (meanwhile disk).docs ≡ some e

module _ (settings : ParkSettings) (now : ℕ) (meanwhile : Disk Entry → Disk Entry)
    (others : IsCreateOnly meanwhile) (k : String) (e : Entry) where
  abbrev Holds : Disk Entry → Type 0
  Holds disk = lookup k disk.docs ≡ some e

  same-Holds : (d d' : Disk Entry) → d'.docs ≡ d.docs → Holds d → Holds d'
  same-Holds d d' same h = rw same h

  created-keeps :
      (case_id : String) (required : Text) (entry : Entry) (r : Answer Bool × Disk Entry)
      → Holds r.1
      → Holds (created case_id required entry r).1
  unfolding created
  created-keeps case_id required entry (answered true, disk) h = h
  created-keeps case_id required entry (answered false, disk) h =
      same-Holds disk (load case_id disk).1 (load-docs case_id disk) h
  created-keeps case_id required entry (raised, disk) h = h

  park_new-keeps :
      (case_id : String) (required : Text) (entry : Entry) (disk : Disk Entry)
      → Holds disk
      → Holds (park_new settings now meanwhile case_id required entry disk).1
  unfolding park_new
  park_new-keeps case_id required entry disk h =
      elim (Bool-cases
        (leb settings.cap (length (keep (λ x. is_parked x.status) (entries disk).0)))) [
          | inl full ↦ rw full listed
          | inr room ↦ rw room (
              created-keeps case_id required entry
                (create_json case_id entry (meanwhile (entries disk).1))
                (create_json-keeps case_id k entry e (meanwhile (entries disk).1)
                  (others.keeps k e (entries disk).1 listed)))
        ]
    where
      listed : Holds (entries disk).1
      listed = same-Holds disk (entries disk).1 (entries-docs disk) h

  park_found-keeps :
      (o : Option Entry) (case_id : String) (required : Text) (entry : Entry) (disk : Disk Entry)
      → Holds disk
      → Holds (park_found settings now meanwhile o case_id required entry disk).1
  unfolding park_found
  park_found-keeps (some old) case_id required entry disk h = h
  park_found-keeps none case_id required entry disk h = park_new-keeps case_id required entry disk h

  park_ref-keeps :
      (case_id : String) (ref_id : Option String) (check : CodeCheck) (required : Text)
      (action : Option Action) (disk : Disk Entry)
      → Holds disk
      → Holds (park_ref settings now meanwhile case_id ref_id check required action disk).1
  unfolding park_ref
  park_ref-keeps case_id none check required action disk h = h
  park_ref-keeps case_id (some ref) check required action disk h =
      elim (Bool-cases (truthy (some ref))) [
        | inl named ↦ rw named (
            park_found-keeps (read_entry (load case_id disk).0) case_id required
              (new_entry case_id ref check required action now) (load case_id disk).1
              (same-Holds disk (load case_id disk).1 (load-docs case_id disk) h))
        | inr nameless ↦ rw nameless h
      ]

  park_version-keeps :
      (case_id : String) (ref_id : Option String) (check : CodeCheck) (o : Option Text)
      (action : Option Action) (disk : Disk Entry)
      → Holds disk
      → Holds (park_version settings now meanwhile case_id ref_id check o action disk).1
  unfolding park_version
  park_version-keeps case_id ref_id check none action disk h = h
  park_version-keeps case_id ref_id check (some required) action disk h =
      elim (Bool-cases (usable_key case_id)) [
        | inl usable ↦ rw usable (park_ref-keeps case_id ref_id check required action disk h)
        | inr unusable ↦ rw unusable h
      ]

-- An entry that is in the queue, of this case or another and whatever its status, stays as it
-- is when a packet is parked, even where a call of the store raises or another pod parks at the
-- same time, as long as the other pods only create entries too. So a packet that was released is
-- never put back in the queue.
pub park-keeps :
    (settings : ParkSettings) (now : ℕ) (meanwhile : Disk Entry → Disk Entry) (case_id : String)
    (ref_id : Option String) (check : CodeCheck) (action : Option Action) (disk : Disk Entry)
    (k : String) (e : Entry)
    → IsCreateOnly meanwhile
    → lookup k disk.docs ≡ some e
    → lookup k (park settings now meanwhile case_id ref_id check action disk).1.docs ≡ some e
unfolding park
park-keeps settings now meanwhile case_id ref_id check action disk k e others h =
    park_version-keeps settings now meanwhile others k e case_id ref_id check
      (named_version check.required_version) action disk h
